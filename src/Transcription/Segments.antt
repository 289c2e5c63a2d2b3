-- ===== src/Transcription/Segments.antt =====
-- What a transcript keeps of a Deepgram response
-- (src/oreeai_notetaker/integrations/transcription/deepgram.py).
use mathlib.Core.List.{append_assoc, append-nil}
use oreeai_notetaker.Prelude.{
  ℕ, ◌+◌, ◌<◌, ◌≡◌, refl, ◌≢◌, ◌⊎◌, ◌∙◌, sym, List, [], ◌∷◌, ◌++◌, Option, none, some, arith,
  length,
}
use oreeai_notetaker.Call.{SpeakerSegment}
use oreeai_notetaker.Transcription.{transcribed, refused, permanent}
use oreeai_notetaker.Transcription.Json.{Items, nil, cons, length_items}
use oreeai_notetaker.Transcription.Response.{
  utterance_segment, segments_from_utterances, parse_utterances,
}

-- The utterances that parse, in order.
pub parsed : Items → List SpeakerSegment
parsed nil = []
parsed (cons u us) = elim (utterance_segment u) [ none ↦ parsed us | some s ↦ s ∷ parsed us ]

loop_lem :
    (us : Items) (segments : List SpeakerSegment) (dropped : ℕ)
    → let (out, lost) = segments_from_utterances us segments dropped in
      (out ≡ segments ++ parsed us) × (lost + length (parsed us) ≡ dropped + length_items us)
unfolding segments_from_utterances parsed
loop_lem nil segments dropped = (sym (append-nil segments), omega arith)
loop_lem (cons u us) segments dropped = go (utterance_segment u) refl (λ ss n. loop_lem us ss n)
  where
    go :
        (o : Option SpeakerSegment)
        → utterance_segment u ≡ o
        → ((ss : List SpeakerSegment) (n : ℕ)
            → let (out, lost) = segments_from_utterances us ss n in
              (out ≡ ss ++ parsed us) × (lost + length (parsed us) ≡ n + length_items us))
        → let (out, lost) = segments_from_utterances (cons u us) segments dropped in
          (out ≡ segments ++ parsed (cons u us))
          × (lost + length (parsed (cons u us)) ≡ dropped + length_items (cons u us))
    go none e ih =
        rw (e, segments_from_utterances, parsed)
          ((ih segments (dropped + 1)).0, omega (arith, (ih segments (dropped + 1)).1))
    go (some s) e ih =
        rw (e, segments_from_utterances, parsed)
          (
            (ih (segments ++ s ∷ []) dropped).0 ∙ append_assoc segments (s ∷ []) (parsed us),
            omega (arith, (ih (segments ++ s ∷ []) dropped).1),
          )

-- `_segments_from_utterances` keeps exactly the utterances that parse, in their order, and counts
-- each of the others as dropped.
pub segments_from_utterances_lem :
    (us : Items)
    → let (segments, dropped) = segments_from_utterances us [] 0 in
      (segments ≡ parsed us) × (dropped + length segments ≡ length_items us)
segments_from_utterances_lem us =
    let (same, count) = loop_lem us [] 0 in (same, rw same (omega (arith, count)))

-- A list of utterances ends in a transcript of those that parse, unless there are utterances and
-- none of them parses: then the call is refused for good. So an empty transcript means that
-- Deepgram heard nobody.
pub parse_utterances_honest :
    (us : Items)
    → ((parsed us ≡ [])
        × (0 < length_items us)
        × (parse_utterances us
            ≡ refused (permanent "deepgram response has utterances but none parsed as segments")))
      ⊎ (((parsed us ≢ []) ⊎ (length_items us ≡ 0))
          × (parse_utterances us ≡ transcribed (record { segments = parsed us })))
unfolding parse_utterances
parse_utterances_honest us = rw (segments_from_utterances_lem us).0 (ground arith)
