-- ===== src/Transcription/Response.antt =====
-- src/oreeai_notetaker/integrations/transcription/deepgram.py: a Deepgram response as a transcript.
-- `str` of a value that is no text, and `str.strip`, are Python's, and are arguments.
use oreeai_notetaker.Prelude.{
  ℕ, ◌+◌, ℤ, Bool, true, false, List, [], ◌∷◌, ◌++◌, Option, none, some, String, ◌<>◌, str_eq, ◌&&◌,
  if◌then◌else◌, ltb,
}
use mathlib.Core.List.{reverse}
use oreeai_notetaker.Call.{SpeakerSegment}
use oreeai_notetaker.Transcription.{
  Transcript, TranscriptionResult, transcribed, refused, permanent,
}
use oreeai_notetaker.Transcription.Json
use oreeai_notetaker.Transcription.Json.{
  Json, null, bool, int, float, str, arr, obj, Items, nil, cons, Fields, as_int_text, as_float,
  as_str, as_list, as_dict, length_items,
}

pub record Python : Type 0 where
  pub str_of : Json → String
  pub strip : String → String

-- The three fields that a segment needs beside its text: `S<speaker>`, the start and the end.
pub record Timing : Type 0 where
  pub speaker : String
  pub start : ℤ
  pub end : ℤ

-- The `isinstance` tests of a word, and of an utterance but for its text.
unfoldable pub timing : Fields → Option Timing
unfolding Json.get as_int_text as_float
timing fs = elim (as_int_text (Json.get "speaker" fs)) [
  | none ↦ none
  | some speaker ↦ elim (as_float (Json.get "start" fs)) [
    | none ↦ none
    | some start ↦ elim (as_float (Json.get "end" fs)) [
      | none ↦ none
      | some end ↦ some (record { speaker = "S" <> speaker; start = start; end = end })
    ]
  ]
]

abbrev pub segment : Timing → String → SpeakerSegment
segment t text = record { speaker = t.speaker; start = t.start; end = t.end; text = text }

-- The body of the loop of `_segments_from_utterances`: a segment, or `none` for a dropped entry.
unfoldable pub utterance_segment : Json → Option SpeakerSegment
unfolding timing as_str Json.get
utterance_segment (obj fs) = elim (timing fs) [
  | none ↦ none
  | some t ↦ elim (as_str (Json.get "transcript" fs)) [
    | none ↦ none
    | some text ↦ some (segment t text)
  ]
]
utterance_segment _ = none

-- `_segments_from_utterances`: `segments.append` and `dropped += 1`.
unfoldable pub segments_from_utterances : Items → List SpeakerSegment → ℕ → List SpeakerSegment × ℕ
segments_from_utterances nil segments dropped = (segments, dropped)
segments_from_utterances (cons u us) segments dropped = elim (utterance_segment u) [
  | none ↦ segments_from_utterances us segments (dropped + 1)
  | some s ↦ segments_from_utterances us (segments ++ s ∷ []) dropped
]

-- Python's truth of a value that is there.
abbrev pub truthy : Json → Bool
truthy null = false
truthy (bool b) = b
truthy (int (ℤ.pos n)) = ltb 0 n
truthy (int (ℤ.negsuc n)) = true
truthy (float (ℤ.pos n)) = ltb 0 n
truthy (float (ℤ.negsuc n)) = true
truthy (str s) = if str_eq s "" then false else true
truthy (arr nil) = false
truthy (arr (cons x xs)) = true
truthy (obj Fields.end) = false
truthy (obj (Fields.field k v fs)) = true

-- The loop state of `_segments_from_words`; `segments` has its last element first.
pub record Grouped : Type 0 where
  pub segments : List SpeakerSegment
  pub dropped : ℕ
  pub words_seen : ℕ

module _ (python : Python) where
  abbrev text_of : Json → String
  text_of (str s) = s
  text_of v = python.str_of v

  -- `str(value or other)`
  abbrev text_or : Option Json → String → String
  text_or none other = other
  text_or (some v) other = if truthy v then text_of v else other

  -- `str(word.get("punctuated_word") or word.get("word") or "")`
  unfoldable pub word_text : Fields → String
  unfolding Json.get
  word_text fs = text_or (Json.get "punctuated_word" fs) (text_or (Json.get "word" fs) "")

  -- One word that parsed: it prolongs the last segment of its speaker, or opens a segment.
  unfoldable pub add_word : Timing → String → List SpeakerSegment → List SpeakerSegment
  add_word t text [] = segment t text ∷ []
  add_word t text (last ∷ rest) =
      if str_eq last.speaker t.speaker
      then (record last { end = t.end; text = python.strip (last.text <> " " <> text) }) ∷ rest
      else segment t text ∷ last ∷ rest

  -- The body of the loop over `raw_words`.
  unfoldable pub group_word : Json → Grouped → Grouped
  unfolding timing add_word word_text
  group_word (obj fs) g = elim (timing fs) [
    | none ↦ record g { dropped = g.dropped + 1; words_seen = g.words_seen + 1 }
    | some t ↦ record g {
      segments = add_word t (word_text fs) g.segments;
      words_seen = g.words_seen + 1;
    }
  ]
  group_word _ g = record g { dropped = g.dropped + 1; words_seen = g.words_seen + 1 }

  unfoldable pub group_words : Items → Grouped → Grouped
  group_words nil g = g
  group_words (cons w ws) g = group_words ws (group_word w g)

  -- The loop over the alternatives; one without a list of words is skipped.
  unfoldable pub group_alternatives : List Fields → Grouped → Grouped
  unfolding group_words as_list Json.get
  group_alternatives [] g = g
  group_alternatives (alt ∷ alts) g = elim (as_list (Json.get "words" alt)) [
    | none ↦ group_alternatives alts g
    | some ws ↦ group_alternatives alts (group_words ws g)
  ]

-- `_as_dicts`
abbrev pub dicts_of : Items → List Fields
dicts_of nil = []
dicts_of (cons (obj fs) xs) = fs ∷ dicts_of xs
dicts_of (cons _ xs) = dicts_of xs

abbrev pub as_dicts : Option Json → List Fields
as_dicts v = elim (as_list v) [ none ↦ [] | some xs ↦ dicts_of xs ]

abbrev pub alternatives_of : List Fields → List Fields
alternatives_of [] = []
alternatives_of (channel ∷ channels) =
    as_dicts (Json.get "alternatives" channel) ++ alternatives_of channels

abbrev pub no_words : Grouped
no_words = record { segments = []; dropped = 0; words_seen = 0 }

abbrev pub is_empty : List SpeakerSegment → Bool
is_empty [] = true
is_empty (s ∷ ss) = false

unfoldable pub parse_utterances : Items → TranscriptionResult Transcript
unfolding segments_from_utterances utterance_segment
parse_utterances us =
    let (segments, dropped) = segments_from_utterances us [] 0 in
    if is_empty segments && ltb 0 (length_items us)
    then refused (permanent "deepgram response has utterances but none parsed as segments")
    else transcribed (record { segments = segments })

unfoldable pub parse_words : Python → List Fields → TranscriptionResult Transcript
unfolding group_alternatives group_word
parse_words python alternatives =
    let g = group_alternatives python alternatives no_words in
    if is_empty g.segments && ltb 0 g.words_seen
    then refused (permanent "deepgram response has words but none parsed as segments")
    else transcribed (record { segments = reverse g.segments })

unfoldable pub parse_response : Python → Fields → TranscriptionResult Transcript
unfolding parse_utterances parse_words as_list as_dict Json.get
parse_response python payload = elim (as_dict (Json.get "results" payload)) [
  | none ↦ refused (permanent "deepgram response missing results object")
  | some results ↦ elim (as_list (Json.get "utterances" results)) [
    | some us ↦ parse_utterances us
    | none ↦ parse_words python (alternatives_of (as_dicts (Json.get "channels" results)))
  ]
]
