-- ===== src/Bot/Deserted.antt =====
-- The call loop takes a room for deserted only if it was not always empty (bot/listeners.py).
use oreeai_notetaker.Prelude.{
  ℕ, zero, suc, ◌≡◌, refl, ◌⊎◌, inl, inr, subst, true, false, List, ◌++◌, Option, none, some,
}
use oreeai_notetaker.Bot.Loop.{
  Meeting, Watch, Ending, BotEvent, Round, goes_on, over, poll, rounds, run_call_loop, initial,
}
use oreeai_notetaker.Bot.Alone.{Counted, left_alone, Honest, poll-Honest}

abbrev Told : Meeting → Watch → Option (Ending × List BotEvent) → Type 0
Told m w none = Unit {0}
Told m w (some (e, es)) = left_alone e ≡ true → (w.saw_others ≡ true) ⊎ ((j : ℕ) × Counted m j)

rounds-Told : (m : Meeting) (start fuel k : ℕ) (w : Watch) → Told m w (rounds m start fuel k w)
unfolding rounds
rounds-Told m start zero k w = tt
rounds-Told m start (suc fuel) k w =
    go (poll m start k w) refl (poll-Honest m start k w) (λ w'. rounds-Told m start fuel (suc k) w')
  where
    join :
        (w' : Watch) (es : List BotEvent) (o : Option (Ending × List BotEvent))
        → (w'.saw_others ≡ true → (w.saw_others ≡ true) ⊎ Counted m k)
        → Told m w' o
        → Told m w (elim o [ none ↦ none | some (e, more) ↦ some (e, es ++ more) ])
    join w' es none before = λ later. tt
    join w' es (some (e, more)) before = λ later h. elim (later h) [
      | inl seen ↦ elim (before seen) [ inl s ↦ inl s | inr c ↦ inr (k, c) ]
      | inr found ↦ inr found
    ]

    go :
        (r : Round)
        → poll m start k w ≡ r
        → Honest m k w r
        → ((w' : Watch) → Told m w' (rounds m start fuel (suc k) w'))
        → Told m w (rounds m start (suc fuel) k w)
    go (over e es) q honest later = rw (q, rounds) (λ h. inl (honest h))
    go (goes_on w' es) q honest later = rw (q, rounds) (join w' es _ honest (later w'))

-- The bot leaves as `alone` only from a room that was not always empty: if the loop returns that end
-- reason, then in some round the page showed at least two participants.
pub run_call_loop-Counted :
    (m : Meeting) (fuel : ℕ) (e : Ending) (es : List BotEvent)
    → run_call_loop m fuel ≡ some (e, es)
    → left_alone e ≡ true
    → (j : ℕ) × Counted m j
unfolding run_call_loop
run_call_loop-Counted m fuel e es h alone =
    elim (subst (Told m (initial (m.clock 0))) h
      (rounds-Told m (m.clock 0) fuel 1 (initial (m.clock 0))) alone) [
        | inl seen ↦ absurd (unseen seen)
        | inr found ↦ found
      ]
  where
    unseen : false ≡ true → ⊥
    unseen x = cc
