-- ===== src/Bot/Rounds.antt =====
-- The call loop as a whole: its rounds one after the other (bot/listeners.py).
use oreeai_notetaker.Prelude.{
  ℕ, ◌+◌, ◌*◌, ◌≤◌, ◌≡◌, refl, sym, ap, Bool, true, not, List, ◌++◌, none, some, leb, arith, inl,
  inr, Option-cases,
}
use oreeai_notetaker.Bot.States.{Page, is_admitted, is_removed, is_call_ended}
use oreeai_notetaker.Bot.Loop.{
  Meeting, Watch, Ending, BotEvent, goes_on, over, post_init, watch_call, poll,
}
use oreeai_notetaker.Bot.Legal.{
  if_holds, Legal, one, starts, stops, announcements, counts-append, EndsWell, Sound,
  stopped-EndsWell, finish_recording-Sound, shot-Sound,
}
use oreeai_notetaker.Bot.Sound.{
  begins, handle_stop-Sound, admit-Sound, wait_for_admission-Sound, watch_room-Sound,
  watch_controls-Sound,
}

is_removed_reason :
    (page : Page) (at : ℕ)
    → (is_removed page at).0 ≡ true
    → post_init 3 (some "removed") (is_removed page at).1 ≡ true
unfolding is_removed
is_removed_reason page at h = elim (Option-cases (page.removed_indicator at)) [
  | inl e ↦ absurd (hidden e)
  | inr (d, e) ↦
      rw (e, is_removed) (begins 3 (some "removed") "removed from call: " d (omega arith) refl)
]
  where
    hidden : page.removed_indicator at ≡ none → ⊥
    hidden e = ground arith

is_call_ended_reason :
    (page : Page) (at : ℕ)
    → (is_call_ended page at).0 ≡ true
    → post_init 0 (some "call_ended") (is_call_ended page at).1 ≡ true
unfolding is_call_ended
is_call_ended_reason page at h = elim (Option-cases (page.call_ended_indicator at)) [
  | inl e ↦ absurd (hidden e)
  | inr (d, e) ↦
      rw (e, is_call_ended) (begins 0 (some "call_ended") "call ended: " d (omega arith) refl)
]
  where
    hidden : page.call_ended_indicator at ≡ none → ⊥
    hidden e = ground arith

module _ (m : Meeting) (start k : ℕ) (w : Watch) where
  watch_call-Sound : w.recording_started ≡ true → Sound m w (watch_call m start k w)
  unfolding watch_call
  watch_call-Sound s =
      if_holds (Sound m w) (is_removed m.page (16 * k)).0
        (λ removed. (
          refl,
          sym (ap one s),
          refl,
          stopped-EndsWell m start k w 3 (some "removed") _
              (is_removed_reason m.page (16 * k) removed) s Legal.removed,
        ))
        (λ here.
          if_holds (Sound m w) (is_call_ended m.page (16 * k + 1)).0
            (λ ended. (
              refl,
              sym (ap one s),
              refl,
              stopped-EndsWell m start k w 0 (some "call_ended") _
                  (is_call_ended_reason m.page (16 * k + 1) ended) s Legal.call_ended,
            ))
            (λ going.
              if_holds (Sound m w) (not (m.recorder_is_running k))
                (λ dead. shot-Sound m start k w "recorder process ended" _ (
                  finish_recording-Sound m start k w 5 none
                    "parec died mid-recording; leaving with a truncated WAV" refl s
                    Legal.bot_error))
                (λ running.
                  if_holds (Sound m w) (leb (w.admitted_at + m.timeouts.max_record_s) (m.clock k))
                    (λ late.
                      finish_recording-Sound m start k w 0 (some "give_up") _
                        (begins 0 (some "give_up") "max record duration reached after " _
                          (omega arith) refl)
                        s Legal.give_up)
                    (λ early.
                      if_holds (Sound m w) (is_admitted m.page (16 * k + 2)).0
                        (λ admitted. watch_room-Sound m start k w s)
                        (λ unsure. watch_controls-Sound m start k w s)))))

  pub poll-Sound : Sound m w (poll m start k w)
  unfolding poll
  poll-Sound =
      if_holds (Sound m w) (m.stop_requested k) (λ stop. handle_stop-Sound m start k w)
        (λ go.
          if_holds (Sound m w) w.recording_started (λ s. watch_call-Sound s)
            (λ s.
              if_holds (Sound m w) (is_admitted m.page (16 * k + 2)).0
                (λ admitted. admit-Sound m start k w s)
                (λ outside. wait_for_admission-Sound m start k w s)))

-- What a run from a state is: it ends well, and the recorder has been stopped if it was ever started.
abbrev pub RunsWell : Meeting → Watch → Ending → List BotEvent → Type 0
RunsWell m w e es =
    (b : Bool) × EndsWell m b e
    × (starts es + one w.recording_started ≡ one b)
    × (stops es ≡ one b)
    × (announcements es + one w.announced ≤ 1)

pub over_RunsWell :
    (m : Meeting) (w : Watch) (e : Ending) (es : List BotEvent)
    → Sound m w (over e es)
    → RunsWell m w e es
over_RunsWell m w e es (s, p, a, ends) =
    (w.recording_started, ends, omega (arith, s), p, omega (arith, a, one_small w.announced))
  where
    one_small : (b : Bool) → one b ≤ 1
    one_small b = ground arith

pub after_round :
    (m : Meeting) (w w' : Watch) (es more : List BotEvent) (e : Ending)
    → Sound m w (goes_on w' es)
    → RunsWell m w' e more
    → RunsWell m w e (es ++ more)
after_round m w w' es more e (s, p, a) (b, ends, s', p', a') =
    let (cs, cp, ca) = counts-append es more in
    (b, ends, omega (arith, s, s', cs), omega (arith, p, p', cp), omega (arith, a, a', ca))
