-- ===== src/Bot/Loop.antt =====
-- bot/listeners.py: `run_call_loop`. A time is a number of microseconds; `now - a >= b` is written
-- `a + b ≤ now`. The rounds of the `while` are counted, and round `k` asks the page from `16 * k` on.
mod State
unfoldable pub use State.*
use oreeai_notetaker.Prelude.{
  ℕ, zero, suc, ◌+◌, ◌*◌, Bool, true, false, not, ◌&&◌, List, [], ◌∷◌, ◌++◌, Option, none, some,
  String, ◌<>◌, show_nat, leb, ◌==◌, if◌then◌else◌, str_eq,
}
use oreeai_notetaker.Runner.ExitTable.{text_in}
use oreeai_notetaker.Bot.States.{
  Page, is_admitted, is_removed, is_call_ended, participant_count, bot_alone_in_call,
}

-- The constants of the polls, in microseconds
abbrev pub first_admission_evidence : ℕ
first_admission_evidence = 5000000

abbrev pub evidence_interval : ℕ
evidence_interval = 30000000

abbrev pub ended_confirmation_polls : ℕ
ended_confirmation_polls = 3

module _ (m : Meeting) (start k : ℕ) where
  abbrev now : ℕ
  now = m.clock k

  -- The moment of the round's first question to the page.
  abbrev first : ℕ
  first = 16 * k

  -- What comes of an ending when the recorder is stopped before it.
  abbrev pub after_stop : Ending → Ending
  after_stop e = if m.stop_raises k then raised else e

  -- `_leave_meet` in the `try` of `_finish_recording`, and its `finally`: the recorder is stopped in any case.
  unfoldable pub finish_recording : String → ℕ → Option String → Round
  finish_recording reason exit_code end_reason =
      if m.page.leave_call_button (first + 15)
      then (if m.leave_fails k
          then over raised (recorder_stopped ∷ [])
          else over (after_stop (bot_outcome exit_code end_reason reason true))
              (leave_clicked ∷ recorder_stopped ∷ []))
      else over (after_stop (bot_outcome exit_code end_reason reason true)) (recorder_stopped ∷ [])

  -- A debug screenshot before what follows.
  abbrev pub shot : String → Round → Round
  shot what (goes_on w es) = goes_on w (debug_screenshot what ∷ es)
  shot what (over e es) = over e (debug_screenshot what ∷ es)

  unfoldable pub handle_stop : Watch → Round
  unfolding finish_recording bot_outcome
  handle_stop w =
      if w.recording_started
      then finish_recording "stop requested" 0 none
      else over (bot_outcome 0 none "stop requested" false) []

  -- `if admitted:` before the recording has started
  unfoldable pub admit : Watch → Round
  unfolding bot_outcome
  admit w =
      if m.recorder_fails k
      then over (bot_outcome 5 none "recorder failed to start" false)
          (debug_screenshot "recording failed to start" ∷ [])
      else goes_on
          (record w {
            recording_started = true;
            admitted_at = now;
            unknown_since = some now;
            next_unknown_evidence = now + evidence_interval;
            announced = if m.announces && not w.announced then true else w.announced;
          })
          (recorder_started ∷ (if m.announces && not w.announced then announcement ∷ [] else []))

  -- The rest of `if not recording_started:`
  unfoldable pub wait_for_admission : Watch → Round
  unfolding bot_outcome
  wait_for_admission w =
      if m.page.join_blocked_indicator (first + 4)
      then over (bot_outcome 5 none "meet blocked the join attempt (anti-bot wall)" false)
          (debug_screenshot "meet blocked the join attempt" ∷ [])
      else if leb (start + m.timeouts.waiting_room_s) now
      then over
          (bot_outcome 2 none
            ("waiting-room timeout after "
              <> m.seconds_text m.timeouts.waiting_room_s
              <> " seconds")
            false)
          (debug_screenshot "never admitted" ∷ [])
      else if leb w.next_admission_evidence now
      then goes_on (record w { next_admission_evidence = now + evidence_interval })
          (debug_screenshot "waiting for admission (periodic evidence)" ∷ [])
      else goes_on w []

  -- `elif alone:`
  unfoldable pub watch_alone : Watch → Round
  unfolding finish_recording
  watch_alone w =
      if w.saw_others
      then elim w.alone_since [
        | none ↦ goes_on (record w { alone_since = some now }) []
        | some since ↦
            if leb (since + m.timeouts.alone_grace_s) now
            then finish_recording
                ("bot alone after others left; alone grace of "
                  <> m.seconds_text m.timeouts.alone_grace_s
                  <> " seconds elapsed")
                0 (some "alone")
            else goes_on w []
      ]
      else if leb (w.admitted_at + m.timeouts.empty_room_s) now
      then finish_recording
          ("room remained empty; empty-room timeout of "
            <> m.seconds_text m.timeouts.empty_room_s
            <> " seconds elapsed")
          4 none
      else goes_on (record w { unknown_since = none }) []

  -- The last `else:`; `since` is `unknown_since` with its default.
  unfoldable pub watch_unknown : Watch → ℕ → Round
  unfolding finish_recording
  watch_unknown w since =
      let w' = record w { unknown_since = some since } in
      if leb (since + m.timeouts.empty_room_s) now
      then shot "participant detection unavailable" (
          finish_recording
            ("participant count unavailable; empty-room timeout of "
              <> m.seconds_text m.timeouts.empty_room_s
              <> " seconds elapsed")
            5 none)
      else if leb w.next_unknown_evidence now
      then goes_on (record w' { next_unknown_evidence = now + evidence_interval })
          (debug_screenshot "participant detection uncertain (periodic evidence)" ∷ [])
      else goes_on w' []

  abbrev pub or_now : Option ℕ → ℕ
  or_now none = now
  or_now (some t) = t

  -- `count is not None and count >= 2`
  abbrev pub others_counted : Option ℕ → Bool
  others_counted none = false
  others_counted (some n) = leb 2 n

  -- `if admitted:` while recording
  unfoldable pub watch_room : Watch → Round
  unfolding watch_alone watch_unknown participant_count bot_alone_in_call
  watch_room w₀ =
      let w = record w₀ { missed_leave = 0 } in
      if others_counted (participant_count m.page (first + 5)).0
      then goes_on (record w { saw_others = true; alone_since = none; unknown_since = none }) []
      else if (bot_alone_in_call m.page (first + 8)).0
      then watch_alone w
      else if w.saw_others
      then goes_on (record w { alone_since = none; unknown_since = none }) []
      else watch_unknown w (or_now w.unknown_since)

  -- `else:` while recording: the controls are gone.
  unfoldable pub watch_controls : Watch → Round
  unfolding bot_outcome show_nat
  watch_controls w =
      if m.page.leave_call_button (first + 5)
      then goes_on (record w { missed_leave = 0 }) []
      else if leb ended_confirmation_polls (suc w.missed_leave)
      then over
          (after_stop (
            bot_outcome 0 (some "call_ended")
              ("in-call indicators gone for "
                <> show_nat (suc w.missed_leave)
                <> " polls; treating as call ended")
              true))
          (debug_screenshot "in-call controls gone" ∷ recorder_stopped ∷ [])
      else goes_on (record w { missed_leave = suc w.missed_leave }) []

  -- The part of the loop's body for a bot that is recording.
  unfoldable pub watch_call : Watch → Round
  unfolding watch_room watch_controls finish_recording bot_outcome is_removed is_call_ended
      is_admitted
  watch_call w =
      let (removed, removed_detail) = is_removed m.page first in
      let (ended, ended_detail) = is_call_ended m.page (first + 1) in
      if removed
      then over (after_stop (bot_outcome 3 (some "removed") removed_detail true))
          (recorder_stopped ∷ [])
      else if ended
      then over (after_stop (bot_outcome 0 (some "call_ended") ended_detail true))
          (recorder_stopped ∷ [])
      else if not (m.recorder_is_running k)
      then shot "recorder process ended"
          (finish_recording "parec died mid-recording; leaving with a truncated WAV" 5 none)
      else if leb (w.admitted_at + m.timeouts.max_record_s) now
      then finish_recording
          ("max record duration reached after "
            <> m.seconds_text m.timeouts.max_record_s
            <> " seconds")
          0 (some "give_up")
      else if (is_admitted m.page (first + 2)).0
      then watch_room w
      else watch_controls w

  -- The body of the loop.
  unfoldable pub poll : Watch → Round
  unfolding handle_stop admit wait_for_admission watch_call is_admitted
  poll w =
      if m.stop_requested k
      then handle_stop w
      else if w.recording_started
      then watch_call w
      else if (is_admitted m.page (first + 2)).0
      then admit w
      else wait_for_admission w

-- The state before the loop.
abbrev pub initial : ℕ → Watch
initial start = record {
  admitted_at = 0;
  recording_started = false;
  announced = false;
  saw_others = false;
  alone_since = none;
  unknown_since = none;
  missed_leave = 0;
  next_admission_evidence = start + first_admission_evidence;
  next_unknown_evidence = 0;
}

-- `while True:`, for at most `fuel` rounds from round `k` on: how it ended, and what it did.
unfoldable pub rounds : Meeting → ℕ → ℕ → ℕ → Watch → Option (Ending × List BotEvent)
unfolding poll
rounds m start zero k w = none
rounds m start (suc fuel) k w = elim (poll m start k w) [
  | over e es ↦ some (e, es)
  | goes_on w' es ↦ elim (rounds m start fuel (suc k) w') [
    | none ↦ none
    | some (e, more) ↦ some (e, es ++ more)
  ]
]

-- The loop reads the clock for `start`, and then in each round.
unfoldable pub run_call_loop : Meeting → ℕ → Option (Ending × List BotEvent)
unfolding rounds
run_call_loop m fuel = rounds m (m.clock 0) fuel 1 (initial (m.clock 0))
