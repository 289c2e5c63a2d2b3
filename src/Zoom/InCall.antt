-- ===== src/Zoom/InCall.antt =====
-- Every branch of the Zoom loop while the bot records: what it leaves as it is, and how it can end
-- (bot/listeners_zoom.py, bot/README.md).
use oreeai_notetaker.Prelude.{
  ℕ, suc, ◌+◌, ◌*◌, ◌≡◌, ◌⊎◌, refl, sym, ap, ◌∙◌, Bool, true, false, not, ◌&&◌, [], List, Option,
  none, some, String, ◌<>◌, leb, if◌then◌else◌, arith, inl, inr, Option-cases, Bool-cases, is_some,
}
use oreeai_notetaker.Bot.Loop.{
  Ending, outcome, raised, BotEvent, Watch, Round, goes_on, over, post_init, bot_outcome,
  ended_confirmation_polls,
}
use oreeai_notetaker.Bot.Legal.{if_holds, Legal, made, one, starts, stops, announcements}
use oreeai_notetaker.Bot.Sound.{begins}
use oreeai_notetaker.Zoom.States.{
  Page, in_call_controls, is_removed, is_call_ended, participant_count, bot_alone_in_call,
}
use oreeai_notetaker.Zoom.Loop.{
  Meeting, shot, after_stop, left_events, finish_recording, watch_alone, watch_unknown, watch_room,
  watch_controls, others_counted, or_now,
}

-- A legal outcome that says whether there is a recording; or an exception that the recorder's stop, or
-- the search for the Leave control before it, has raised while the bot recorded.
abbrev pub EndsLegally : Meeting → Bool → Ending → Type 0
EndsLegally m recording (outcome o) = Legal o × (o.recording_started ≡ recording)
EndsLegally m recording raised =
    (recording ≡ true) × (k : ℕ) × ((m.stop_raises k ≡ true) ⊎ (m.leave_search_raises k ≡ true))

-- A round that ends the loop: the recorder is stopped if it had been started.
abbrev pub EndsWell : Meeting → Watch → Ending → List BotEvent → Type 0
EndsWell m w e es =
    (starts es ≡ 0)
    × (stops es ≡ one w.recording_started)
    × (announcements es ≡ 0)
    × EndsLegally m w.recording_started e

-- A round of a bot that records.
abbrev pub InCall : Meeting → Watch → Round → Type 0
InCall m w (goes_on w' es) =
    (w'.recording_started ≡ w.recording_started)
    × (w'.admitted_at ≡ w.admitted_at)
    × (w'.announced ≡ w.announced)
    × (starts es ≡ 0)
    × (stops es ≡ 0)
    × (announcements es ≡ 0)
InCall m w (over e es) = EndsWell m w e es

pub made-EndsLegally :
    (m : Meeting) (code : ℕ) (e : Option String) (r : String) (b recording : Bool)
    → post_init code e r ≡ true
    → recording ≡ b
    → Legal (made code e r b)
    → EndsLegally m recording (bot_outcome code e r b)
unfolding bot_outcome
made-EndsLegally m code e r b recording h s legal = rw h (legal, sym s)

-- The same after the recorder's stop.
pub stopped-EndsLegally :
    (m : Meeting) (start k code : ℕ) (e : Option String) (r : String) (recording : Bool)
    → post_init code e r ≡ true
    → recording ≡ true
    → Legal (made code e r true)
    → EndsLegally m recording (after_stop m start k (bot_outcome code e r true))
stopped-EndsLegally m start k code e r recording h s legal =
    if_holds (EndsLegally m recording) (m.stop_raises k) (λ raises. (s, k, inl raises))
      (λ fine. made-EndsLegally m code e r true recording h s legal)

pub shot-InCall :
    (m : Meeting) (what : String) (w : Watch) (r : Round) → InCall m w r → InCall m w (shot what r)
shot-InCall m what w (goes_on w' es) h = h
shot-InCall m what w (over e es) h = h

module _ (m : Meeting) (start k : ℕ) (w : Watch) (s : w.recording_started ≡ true) where
  left-counts :
      (starts (left_events m start k) ≡ 0)
      × (stops (left_events m start k) ≡ 1)
      × (announcements (left_events m start k) ≡ 0)
  left-counts =
      if_holds (λ es. (starts es ≡ 0) × (stops es ≡ 1) × (announcements es ≡ 0))
        (not (m.leave_search_raises k)
          && is_some (m.page.leave_button (64 * k + 40))
          && not (m.leave_fails k))
        (λ there. (refl, refl, refl)) (λ gone. (refl, refl, refl))

  pub finish-InCall :
      (code : ℕ) (e : Option String) (r : String)
      → post_init code e r ≡ true
      → Legal (made code e r true)
      → InCall m w (finish_recording m start k r code e)
  unfolding finish_recording
  finish-InCall code e r h legal =
      let (a, b, c) = left-counts in
      (
        a,
        rw s b,
        c,
        if_holds (EndsLegally m w.recording_started) (m.leave_search_raises k)
            (λ raises. (s, k, inr raises))
            (λ fine. stopped-EndsLegally m start k code e r w.recording_started h s legal),
      )

  watch_alone-InCall : InCall m w (watch_alone m start k w)
  unfolding watch_alone
  watch_alone-InCall =
      if_holds (InCall m w) w.saw_others (λ seen. since w.alone_since)
        (λ unseen.
          if_holds (InCall m w) (leb (w.admitted_at + m.timeouts.empty_room_s) (m.clock k))
            (λ late.
              finish-InCall 4 none _
                (begins 4 none "room remained empty; empty-room timeout of " _ (omega arith) refl)
                Legal.empty_room)
            (λ early. (refl, refl, refl, refl, refl, refl)))
    where
      since :
          (o : Option ℕ)
          → InCall m w (elim o [
            | none ↦ goes_on (record w { alone_since = some (m.clock k) }) []
            | some since ↦
                if leb (since + m.timeouts.alone_grace_s) (m.clock k)
                then finish_recording m start k
                    ("bot alone after others left; alone grace of "
                      <> m.seconds_text m.timeouts.alone_grace_s
                      <> " seconds elapsed")
                    0
                    (some "alone")
                else goes_on w []
          ])
      since none = (refl, refl, refl, refl, refl, refl)
      since (some t) =
          if_holds (InCall m w) (leb (t + m.timeouts.alone_grace_s) (m.clock k))
            (λ late.
              finish-InCall 0 (some "alone") _
                (begins 0 (some "alone") "bot alone after others left; alone grace of " _
                  (omega arith) refl)
                Legal.alone)
            (λ early. (refl, refl, refl, refl, refl, refl))

  watch_unknown-InCall : (since : ℕ) → InCall m w (watch_unknown m start k w since)
  unfolding watch_unknown
  watch_unknown-InCall since =
      if_holds (InCall m w) (leb (since + m.timeouts.empty_room_s) (m.clock k))
        (λ late.
          shot-InCall m "participant detection unavailable" w
            (finish_recording m start k (unknown <> rest) 5 none)
            (finish-InCall 5 none (unknown <> rest) (begins 5 none unknown rest (omega arith) refl)
              Legal.bot_error))
        (λ early.
          if_holds (InCall m w) (leb w.next_unknown_evidence (m.clock k))
            (λ due. (refl, refl, refl, refl, refl, refl))
            (λ not_due. (refl, refl, refl, refl, refl, refl)))
    where
      unknown : String
      unknown = "participant count unavailable; empty-room timeout of "

      rest : String
      rest = m.seconds_text m.timeouts.empty_room_s <> " seconds elapsed"

  pub watch_controls-InCall : InCall m w (watch_controls m start k w)
  unfolding watch_controls
  watch_controls-InCall =
      if_holds (InCall m w) (leb ended_confirmation_polls (suc w.missed_leave))
        (λ confirmed. (
          refl,
          sym (ap one s),
          refl,
          stopped-EndsLegally m start k 0 (some "call_ended") _ w.recording_started
              (begins 0 (some "call_ended") "in-call indicators gone for " _ (omega arith) refl) s
              Legal.call_ended,
        ))
        (λ early. (refl, refl, refl, refl, refl, refl))

-- A detail that a predicate gives is not empty.
pub is_removed_reason :
    (page : Page) (at : ℕ)
    → (is_removed page at).0 ≡ true
    → post_init 3 (some "removed") (is_removed page at).1 ≡ true
unfolding is_removed
is_removed_reason page at h = elim (Option-cases (page.removed_dialog at)) [
  | inr (d, e) ↦
      rw (e, is_removed)
        (begins 3 (some "removed") "removed from meeting (dialog): " d (omega arith) refl)
  | inl e ↦ elim (Option-cases (page.removed_indicator (at + 1))) [
    | inl f ↦ absurd (clash (sym h ∙ rw (is_removed, e, f) refl))
    | inr (d, f) ↦ elim (Bool-cases (in_call_controls page (at + 2)).0) [
      | inl g ↦ absurd (clash (sym h ∙ rw (is_removed, e, f, g) refl))
      | inr g ↦
          rw (is_removed, e, f, g)
            (begins 3 (some "removed") "removed from meeting: " d (omega arith) refl)
    ]
  ]
]
  where
    clash : true ≡ false → ⊥
    clash e = cc

pub is_call_ended_reason :
    (page : Page) (at : ℕ)
    → (is_call_ended page at).0 ≡ true
    → post_init 0 (some "call_ended") (is_call_ended page at).1 ≡ true
unfolding is_call_ended
is_call_ended_reason page at h = elim (Option-cases (page.meeting_ended_dialog at)) [
  | inr (d, e) ↦
      rw (e, is_call_ended)
        (begins 0 (some "call_ended") "call ended (dialog): " d (omega arith) refl)
  | inl e ↦ elim (Option-cases (page.call_ended_indicator (at + 1))) [
    | inl f ↦ absurd (clash (sym h ∙ rw (is_call_ended, e, f) refl))
    | inr (d, f) ↦ elim (Bool-cases (in_call_controls page (at + 2)).0) [
      | inl g ↦ absurd (clash (sym h ∙ rw (is_call_ended, e, f, g) refl))
      | inr g ↦
          rw (is_call_ended, e, f, g)
            (begins 0 (some "call_ended") "call ended: " d (omega arith) refl)
    ]
  ]
]
  where
    clash : true ≡ false → ⊥
    clash e = cc

module _ (m : Meeting) (start k : ℕ) (w : Watch) (s : w.recording_started ≡ true) where
  pub watch_room-InCall : InCall m w (watch_room m start k w)
  unfolding watch_room
  watch_room-InCall =
      if_holds (InCall m w) (others_counted m start k (participant_count m.page (64 * k + 14)).0)
        (λ others. (refl, refl, refl, refl, refl, refl))
        (λ few.
          if_holds (InCall m w) (bot_alone_in_call m.page (64 * k + 17)).0
            (λ alone. from (watch_alone m start k w₀) (watch_alone-InCall m start k w₀ s))
            (λ unsure.
              if_holds (InCall m w) w.saw_others (λ seen. (refl, refl, refl, refl, refl, refl))
                (λ unseen.
                  from (watch_unknown m start k w₀ (or_now m start k w.unknown_since))
                    (watch_unknown-InCall m start k w₀ s (or_now m start k w.unknown_since)))))
    where
      w₀ : Watch
      w₀ = record w { missed_leave = 0 }

      from : (r : Round) → InCall m w₀ r → InCall m w r
      from (goes_on w' es) h = h
      from (over e es) h = h
