-- ===== src/Transcription/WordCount.antt =====
-- The words of a response, and what the grouping makes of their number
-- (src/oreeai_notetaker/integrations/transcription/deepgram.py).
use oreeai_notetaker.Prelude.{
  ◌+◌, ◌≤◌, ◌<◌, ◌≡◌, refl, sym, suc, ◌≢◌, ◌⊎◌, ◌↔◌, ℕ, Bool, true, false, ◌||◌, is_some, List, [],
  ◌∷◌, Option, none, some, String, arith, length, ltb, ◌&&◌,
}
use oreeai_notetaker.Call.{SpeakerSegment}
use oreeai_notetaker.Transcription.Json.{
  Json, null, bool, int, float, str, arr, obj, Items, nil, cons, Fields, as_list, length_items,
}
use oreeai_notetaker.Transcription.Json
use oreeai_notetaker.Transcription.Response.{
  Python, Timing, timing, Grouped, add_word, word_text, group_word, group_words, group_alternatives,
  is_empty,
}

-- Whether a word has the fields that a segment needs.
abbrev pub parses : Json → Bool
parses (obj fs) = is_some (timing fs)
parses _ = false

abbrev pub any_parses : Items → Bool
any_parses nil = false
any_parses (cons w ws) = parses w || any_parses ws

abbrev pub or_nil : Option Items → Items
or_nil none = nil
or_nil (some ws) = ws

abbrev pub words_of : Fields → Items
words_of alt = or_nil (as_list (Json.get "words" alt))

-- The words of a response, in all its alternatives.
unfoldable pub word_count : List Fields → ℕ
unfolding as_list Json.get
word_count [] = 0
word_count (alt ∷ alts) = length_items (words_of alt) + word_count alts

unfoldable pub any_word_parses : List Fields → Bool
unfolding as_list Json.get timing
any_word_parses [] = false
any_word_parses (alt ∷ alts) = any_parses (words_of alt) || any_word_parses alts

pub never_both : true ≡ false → ⊥
never_both h = cc

pub zero_or_more : (n : ℕ) → (n ≡ 0) ⊎ (0 < n)
zero_or_more n = ground arith

-- The test of the refusal.
pub refusal_iff :
    (ss : List SpeakerSegment) (seen : ℕ)
    → (is_empty ss && ltb 0 seen ≡ true) ↔ ((ss ≡ []) × (0 < seen))
refusal_iff [] seen = ground arith
refusal_iff (s ∷ ss) seen = (λ h. absurd (never_both (sym h)), λ h. cc)

pub none_long : (ss : List SpeakerSegment) → length ss ≤ 0 → ss ≡ []
none_long [] h = refl
none_long (s ∷ ss) h = absurd (long h)
  where
    long : suc (length ss) ≤ 0 → ⊥
    long h = omega (arith, h)

module _ (python : Python) where
  pub length-add_word :
      (t : Timing) (text : String) (ss : List SpeakerSegment)
      → (length (add_word python t text ss) ≤ length ss + 1) × (add_word python t text ss ≢ [])
  unfolding add_word
  length-add_word t text [] = (omega arith, λ e. cc)
  length-add_word t text (s ∷ rest) = ground arith

  -- A word that parses adds to the segments; any other leaves them.
  group_word-segments :
      (w : Json) (g : Grouped)
      → ((group_word python w g).words_seen ≡ g.words_seen + 1)
        × (((group_word python w g).segments ≡ []) ↔ ((g.segments ≡ []) × (parses w ≡ false)))
  unfolding group_word
  group_word-segments (obj fs) g = go (timing fs) refl
    where
      go :
          (o : Option Timing)
          → timing fs ≡ o
          → ((group_word python (obj fs) g).words_seen ≡ g.words_seen + 1)
            × (((group_word python (obj fs) g).segments ≡ [])
                ↔ ((g.segments ≡ []) × (parses (obj fs) ≡ false)))
      go none e = rw (e, group_word) (refl, (λ h. (h, refl), λ h. h.0))
      go (some t) e =
          rw (e, group_word)
            (
              refl,
              (
                λ h. absurd ((length-add_word t (word_text python fs) g.segments).1 h),
                λ h. absurd (never_both h.1),
              ),
            )
  group_word-segments null g = (refl, (λ h. (h, refl), λ h. h.0))
  group_word-segments (bool b) g = (refl, (λ h. (h, refl), λ h. h.0))
  group_word-segments (int n) g = (refl, (λ h. (h, refl), λ h. h.0))
  group_word-segments (float x) g = (refl, (λ h. (h, refl), λ h. h.0))
  group_word-segments (str s) g = (refl, (λ h. (h, refl), λ h. h.0))
  group_word-segments (arr xs) g = (refl, (λ h. (h, refl), λ h. h.0))

  group_words-segments :
      (ws : Items) (g : Grouped)
      → ((group_words python ws g).words_seen ≡ g.words_seen + length_items ws)
        × (((group_words python ws g).segments ≡ [])
            ↔ ((g.segments ≡ []) × (any_parses ws ≡ false)))
  unfolding group_words
  group_words-segments nil g = (omega arith, (λ h. (h, refl), λ h. h.0))
  group_words-segments (cons w ws) g =
      let (seen, only) = group_word-segments w g in
      let (seen', only') = group_words-segments ws (group_word python w g) in
      (omega (arith, seen, seen'), ground (arith, only, only'))

  pub group_alternatives-segments :
      (alts : List Fields) (g : Grouped)
      → ((group_alternatives python alts g).words_seen ≡ g.words_seen + word_count alts)
        × (((group_alternatives python alts g).segments ≡ [])
            ↔ ((g.segments ≡ []) × (any_word_parses alts ≡ false)))
  unfolding group_alternatives word_count any_word_parses
  group_alternatives-segments [] g = (omega arith, (λ h. (h, refl), λ h. h.0))
  group_alternatives-segments (alt ∷ alts) g =
      go (as_list (Json.get "words" alt)) refl (λ g'. group_alternatives-segments alts g')
    where
      go :
          (o : Option Items)
          → as_list (Json.get "words" alt) ≡ o
          → ((g' : Grouped)
              → ((group_alternatives python alts g').words_seen ≡ g'.words_seen + word_count alts)
                × (((group_alternatives python alts g').segments ≡ [])
                    ↔ ((g'.segments ≡ []) × (any_word_parses alts ≡ false))))
          → ((group_alternatives python (alt ∷ alts) g).words_seen
              ≡ g.words_seen + word_count (alt ∷ alts))
            × (((group_alternatives python (alt ∷ alts) g).segments ≡ [])
                ↔ ((g.segments ≡ []) × (any_word_parses (alt ∷ alts) ≡ false)))
      go none e later =
          rw (e, group_alternatives, word_count, any_word_parses) (ground (arith, later g))
      go (some ws) e later =
          let (seen, only) = group_words-segments ws g in
          let (seen', only') = later (group_words python ws g) in
          rw (e, group_alternatives, word_count, any_word_parses)
            (omega (arith, seen, seen'), ground (arith, only, only'))
