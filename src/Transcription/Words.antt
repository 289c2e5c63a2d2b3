-- ===== src/Transcription/Words.antt =====
-- The fallback that groups words into segments
-- (src/oreeai_notetaker/integrations/transcription/deepgram.py).
use mathlib.Core.List.{reverse}
use oreeai_notetaker.Prelude.{
  ◌+◌, ◌≤◌, ◌<◌, ◌≡◌, refl, sym, ◌∙◌, ◌≢◌, ◌⊎◌, ◌↔◌, true, false, inl, inr, List, [], ◌∷◌, Option,
  none, some, String, arith, eq_iff, length, Option-cases, Bool-cases, ltb, ◌&&◌,
}
use oreeai_notetaker.Call.{SpeakerSegment}
use oreeai_notetaker.Transcription.{transcribed, refused, permanent}
use oreeai_notetaker.Transcription.Json.{
  Json, null, bool, int, float, str, arr, obj, Items, nil, cons, Fields, as_list, length_items,
}
use oreeai_notetaker.Transcription.Json
use oreeai_notetaker.Transcription.Response.{
  Python, Timing, timing, Grouped, no_words, add_word, word_text, group_word, group_words,
  group_alternatives, parse_words, is_empty,
}
use oreeai_notetaker.Transcription.WordCount.{
  word_count, any_word_parses, length-add_word, group_alternatives-segments, refusal_iff,
  zero_or_more, none_long, never_both,
}

-- No segment is followed by another of its speaker.
abbrev pub Alternates : List SpeakerSegment → Type 0
Alternates [] = Unit {0}
Alternates (s ∷ []) = Unit {0}
Alternates (s ∷ t ∷ rest) = (s.speaker ≢ t.speaker) × Alternates (t ∷ rest)

-- What holds of the state of the loop.
pub record IsGrouped (g : Grouped) : Type 0 where
  pub alternates : Alternates g.segments
  pub counted : g.dropped + length g.segments ≤ g.words_seen
  pub nothing_lost : g.segments ≡ [] → g.dropped ≡ g.words_seen

module _ (python : Python) where
  add_word-Alternates :
      (t : Timing) (text : String) (ss : List SpeakerSegment)
      → Alternates ss
      → Alternates (add_word python t text ss)
  unfolding add_word
  add_word-Alternates t text [] h = tt
  add_word-Alternates t text (s ∷ []) h = ground (arith, eq_iff s.speaker t.speaker)
  add_word-Alternates t text (s ∷ u ∷ rest) h = ground (arith, eq_iff s.speaker t.speaker)

  group_word-IsGrouped : (w : Json) (g : Grouped) → IsGrouped g → IsGrouped (group_word python w g)
  unfolding group_word
  group_word-IsGrouped (obj fs) g h = go (timing fs) refl
    where
      go : (o : Option Timing) → timing fs ≡ o → IsGrouped (group_word python (obj fs) g)
      go none e = rw (e, group_word) (ground arith)
      go (some t) e =
          rw (e, group_word)
            (record {
              alternates = add_word-Alternates t (word_text python fs) g.segments h.alternates;
              counted =
                  omega (arith, (length-add_word python t (word_text python fs) g.segments).0);
              nothing_lost =
                  λ k. absurd ((length-add_word python t (word_text python fs) g.segments).1 k);
            })
  group_word-IsGrouped null g h = ground arith
  group_word-IsGrouped (bool b) g h = ground arith
  group_word-IsGrouped (int n) g h = ground arith
  group_word-IsGrouped (float x) g h = ground arith
  group_word-IsGrouped (str s) g h = ground arith
  group_word-IsGrouped (arr xs) g h = ground arith

  group_words-IsGrouped :
      (ws : Items) (g : Grouped) → IsGrouped g → IsGrouped (group_words python ws g)
  unfolding group_words
  group_words-IsGrouped nil g h = h
  group_words-IsGrouped (cons w ws) g h =
      group_words-IsGrouped ws (group_word python w g) (group_word-IsGrouped w g h)

  -- However the words come, in however many alternatives: no two neighbouring segments have the same
  -- speaker, there are never more segments than words that parsed, and no segment means that every
  -- word that was seen was dropped.
  pub group_alternatives-IsGrouped :
      (alts : List Fields) (g : Grouped)
      → IsGrouped g
      → IsGrouped (group_alternatives python alts g)
  unfolding group_alternatives
  group_alternatives-IsGrouped [] g h = h
  group_alternatives-IsGrouped (alt ∷ alts) g h =
      elim (Option-cases (as_list (Json.get "words" alt))) [
        | inl e ↦ rw (e, group_alternatives) (group_alternatives-IsGrouped alts g h)
        | inr (ws, e) ↦
            rw (e, group_alternatives)
              (group_alternatives-IsGrouped alts (group_words python ws g)
                (group_words-IsGrouped ws g h))
      ]

  -- In terms of the response alone: if its alternatives have words and none of them has the three
  -- fields that a segment needs, then they are refused for good; otherwise there is a transcript, which
  -- is empty exactly if there is no word in any alternative.
  pub parse_words_honest :
      (alts : List Fields)
      → ((any_word_parses alts ≡ false)
          × (0 < word_count alts)
          × (parse_words python alts
              ≡ refused (permanent "deepgram response has words but none parsed as segments")))
        ⊎ (((any_word_parses alts ≡ true) ⊎ (word_count alts ≡ 0))
            × (ss : List SpeakerSegment) × (parse_words python alts
                ≡ transcribed (record { segments = reverse ss }))
            × ((ss ≡ []) ↔ (word_count alts ≡ 0)))
  unfolding parse_words
  parse_words_honest alts =
      go (group_alternatives python alts no_words) refl
        (group_alternatives-segments python alts no_words)
        (group_alternatives-IsGrouped alts no_words
          (record { alternates = tt; counted = omega arith; nothing_lost = λ e. refl }))
    where
      go :
          (g : Grouped)
          → group_alternatives python alts no_words ≡ g
          → (g.words_seen ≡ 0 + word_count alts)
            × ((g.segments ≡ []) ↔ ((no_words.segments ≡ []) × (any_word_parses alts ≡ false)))
          → IsGrouped g
          → ((any_word_parses alts ≡ false)
              × (0 < word_count alts)
              × (parse_words python alts
                  ≡ refused (permanent "deepgram response has words but none parsed as segments")))
            ⊎ (((any_word_parses alts ≡ true) ⊎ (word_count alts ≡ 0))
                × (ss : List SpeakerSegment) × (parse_words python alts
                    ≡ transcribed (record { segments = reverse ss }))
                × ((ss ≡ []) ↔ (word_count alts ≡ 0)))
      go g e (seen, only) grouped = elim (Bool-cases (is_empty g.segments && ltb 0 g.words_seen)) [
        | inl bad ↦
            let (none_there, some_seen) = (refusal_iff g.segments g.words_seen).0 bad in
            inl (
              (only.0 none_there).1,
              omega (arith, seen, some_seen),
              rw (parse_words, e) (rw bad refl),
            )
        | inr good ↦ inr (
          elim (Bool-cases (any_word_parses alts)) [
            | inl some_parse ↦ inl some_parse
            | inr none_parses ↦ inr (unseen good (only.1 (refl, none_parses)))
          ],
          g.segments,
          rw (parse_words, e) (rw good refl),
          (unseen good, λ h. none_long g.segments (short h)),
        )
      ]
        where
          unseen :
              is_empty g.segments && ltb 0 g.words_seen ≡ false
              → g.segments ≡ []
              → word_count alts ≡ 0
          unseen good h = elim (zero_or_more g.words_seen) [
            | inl zero_seen ↦ omega (arith, zero_seen, seen)
            | inr some_seen ↦
                absurd
                  (never_both (sym ((refusal_iff g.segments g.words_seen).1 (h, some_seen)) ∙ good))
          ]

          short : word_count alts ≡ 0 → length g.segments ≤ 0
          short h = omega (arith, h, seen, grouped.counted)
