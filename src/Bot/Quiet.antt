-- ===== src/Bot/Quiet.antt =====
-- What a round of the call loop leaves as it is (bot/listeners.py).
use oreeai_notetaker.Prelude.{
  ℕ, suc, ◌+◌, ◌*◌, ◌≡◌, refl, [], Option, none, some, String, ◌<>◌, leb, if◌then◌else◌,
}
use oreeai_notetaker.Bot.States.{participant_count, bot_alone_in_call}
use oreeai_notetaker.Bot.Loop.{
  Meeting, Watch, Round, goes_on, over, finish_recording, watch_alone, watch_unknown, watch_room,
  watch_controls, others_counted, ended_confirmation_polls, shot,
}
use oreeai_notetaker.Bot.Legal.{if_holds}

-- What a round leaves as it is while the bot records.
abbrev pub Quiet : Watch → Round → Type 0
Quiet w (goes_on w' es) =
    (w'.recording_started ≡ w.recording_started) × (w'.admitted_at ≡ w.admitted_at)
Quiet w (over e es) = Unit {0}

module _ (m : Meeting) (start k : ℕ) (w : Watch) where
  finish-Quiet :
      (r : String) (code : ℕ) (e : Option String) (v : Watch)
      → Quiet v (finish_recording m start k r code e)
  unfolding finish_recording
  finish-Quiet r code e v =
      if_holds (Quiet v) (m.page.leave_call_button (16 * k + 15))
        (λ there. if_holds (Quiet v) (m.leave_fails k) (λ x. tt) (λ x. tt)) (λ gone. tt)

  shot-Quiet : (what : String) (r : Round) (v : Watch) → Quiet v r → Quiet v (shot m start k what r)
  shot-Quiet what (goes_on w' es) v h = h
  shot-Quiet what (over e es) v h = h

  watch_alone-Quiet : Quiet w (watch_alone m start k w)
  unfolding watch_alone
  watch_alone-Quiet =
      if_holds (Quiet w) w.saw_others (λ seen. since w.alone_since)
        (λ unseen.
          if_holds (Quiet w) (leb (w.admitted_at + m.timeouts.empty_room_s) (m.clock k))
            (λ late. finish-Quiet _ 4 none w) (λ early. (refl, refl)))
    where
      since :
          (o : Option ℕ)
          → Quiet w (elim o [
            | none ↦ goes_on (record w { alone_since = some (m.clock k) }) []
            | some since ↦
                if leb (since + m.timeouts.alone_grace_s) (m.clock k)
                then finish_recording m start k
                    ("bot alone after others left; alone grace of "
                      <> m.seconds_text m.timeouts.alone_grace_s
                      <> " seconds elapsed")
                    0
                    (some "alone")
                else goes_on w []
          ])
      since none = (refl, refl)
      since (some t) =
          if_holds (Quiet w) (leb (t + m.timeouts.alone_grace_s) (m.clock k))
            (λ late. finish-Quiet _ 0 (some "alone") w) (λ early. (refl, refl))

  watch_unknown-Quiet : (since : ℕ) → Quiet w (watch_unknown m start k w since)
  unfolding watch_unknown
  watch_unknown-Quiet since =
      if_holds (Quiet w) (leb (since + m.timeouts.empty_room_s) (m.clock k))
        (λ late. shot-Quiet _ _ w (finish-Quiet _ 5 none w))
        (λ early.
          if_holds (Quiet w) (leb w.next_unknown_evidence (m.clock k)) (λ due. (refl, refl))
            (λ not_due. (refl, refl)))

  pub watch_controls-Quiet : Quiet w (watch_controls m start k w)
  unfolding watch_controls
  watch_controls-Quiet =
      if_holds (Quiet w) (m.page.leave_call_button (16 * k + 5)) (λ there. (refl, refl))
        (λ gone.
          if_holds (Quiet w) (leb ended_confirmation_polls (suc w.missed_leave)) (λ confirmed. tt)
            (λ early. (refl, refl)))

module _ (m : Meeting) (start k : ℕ) (w : Watch) where
  pub watch_room-Quiet : Quiet w (watch_room m start k w)
  unfolding watch_room
  watch_room-Quiet =
      if_holds (Quiet w) (others_counted m start k (participant_count m.page (16 * k + 5)).0)
        (λ others. (refl, refl))
        (λ few.
          if_holds (Quiet w) (bot_alone_in_call m.page (16 * k + 8)).0
            (λ alone. from _ (watch_alone-Quiet m start k w₀))
            (λ unsure.
              if_holds (Quiet w) w.saw_others (λ seen. (refl, refl))
                (λ unseen. from _ (watch_unknown-Quiet m start k w₀ _))))
    where
      w₀ : Watch
      w₀ = record w { missed_leave = 0 }

      from : (r : Round) → Quiet w₀ r → Quiet w r
      from (goes_on w' es) h = h
      from (over e es) h = tt
