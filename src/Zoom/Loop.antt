-- ===== src/Zoom/Loop.antt =====
-- bot/listeners_zoom.py: `run_call_loop`. Times and rounds are as in bot/listeners.py; round `k` asks
-- the page from `64 * k` on.
use oreeai_notetaker.Prelude.{
  ℕ, zero, suc, ◌+◌, ◌*◌, Bool, true, false, not, ◌&&◌, List, [], ◌∷◌, ◌++◌, Option, none, some,
  String, ◌<>◌, show_nat, leb, if◌then◌else◌, is_some,
}
use oreeai_notetaker.Bot.Loop.{
  Timeouts, Ending, raised, bot_outcome, BotEvent, recorder_started, recorder_stopped,
  leave_clicked, announcement, debug_screenshot, Watch, Round, goes_on, over, evidence_interval,
  ended_confirmation_polls, initial,
}
use oreeai_notetaker.Zoom.States.{
  Page, in_call_controls, is_in_waiting_room, is_meeting_not_started, is_admitted, is_removed,
  is_call_ended, participant_count, bot_alone_in_call, is_passcode_screen, is_sign_in_required,
  is_only_authenticated, is_desktop_app_required,
}

-- What the loop is given, and what the recorder and the clicks come to in each round.
pub record Meeting : Type 0 where
  pub page : Page
  pub timeouts : Timeouts
  pub clock : ℕ → ℕ
  pub seconds_text : ℕ → String
  pub announces : Bool
  pub stop_requested : ℕ → Bool
  pub recorder_fails : ℕ → Bool
  pub recorder_is_running : ℕ → Bool
  pub leave_fails : ℕ → Bool
  -- The search for the Leave control, and `recorder.stop()`, which a parec that does not end makes raise
  pub leave_search_raises : ℕ → Bool
  pub stop_raises : ℕ → Bool

abbrev pub shot : String → Round → Round
shot what (goes_on w es) = goes_on w (debug_screenshot what ∷ es)
shot what (over e es) = over e (debug_screenshot what ∷ es)

-- The reasons of `_detect_fatal_wall`.
abbrev pub sign_in_wall : String
sign_in_wall =
    "guest join hit Zoom's sign-in-required wall (invisible CAPTCHA); Z3's signed-in mode is the fallback"

abbrev pub only_authenticated_wall : String
only_authenticated_wall = "meeting allows only authenticated users"

abbrev pub desktop_app_wall : String
desktop_app_wall = "meeting requires the Zoom desktop app or has E2EE on; no web-client path"

abbrev pub passcode_wall : String
passcode_wall = "meeting passcode missing or rejected; put ?pwd= in the meeting URL"

module _ (m : Meeting) (start k : ℕ) where
  abbrev now : ℕ
  now = m.clock k

  -- The moment of the round's first question to the page.
  abbrev first : ℕ
  first = 64 * k

  -- What comes of an ending when the recorder is stopped before it.
  abbrev pub after_stop : Ending → Ending
  after_stop e = if m.stop_raises k then raised else e

  -- `_leave_zoom` and the recorder's stop after it: an exception of the click is caught.
  abbrev pub left_events : List BotEvent
  left_events =
      if not (m.leave_search_raises k)
        && is_some (m.page.leave_button (first + 40))
        && not (m.leave_fails k)
      then leave_clicked ∷ recorder_stopped ∷ []
      else recorder_stopped ∷ []

  -- `_finish_recording`
  unfoldable pub finish_recording : String → ℕ → Option String → Round
  finish_recording reason exit_code end_reason =
      over
        (if m.leave_search_raises k
          then raised
          else after_stop (bot_outcome exit_code end_reason reason true))
        left_events

  unfoldable pub handle_stop : Watch → Round
  unfolding finish_recording bot_outcome
  handle_stop w =
      if w.recording_started
      then finish_recording "stop requested" 0 none
      else over (bot_outcome 0 none "stop requested" false) []

  -- `_join_computer_audio`: whatever it raises is caught.
  abbrev pub audio_events : List BotEvent
  audio_events =
      if m.page.audio_join_button (first + 12)
      then []
      else debug_screenshot "computer-audio join control not found" ∷ []

  abbrev pub announce_events : Watch → List BotEvent
  announce_events w = if m.announces && not w.announced then announcement ∷ [] else []

  -- `if admitted:` before the recording has started
  unfoldable pub admit : Watch → Round
  unfolding bot_outcome
  admit w =
      if m.recorder_fails k
      then over (bot_outcome 5 none "recorder failed to start" false)
          (debug_screenshot "recording failed to start" ∷ [])
      else goes_on
          (record w {
            recording_started = true;
            admitted_at = now;
            unknown_since = some now;
            next_unknown_evidence = now + evidence_interval;
            announced = if m.announces && not w.announced then true else w.announced;
          })
          (recorder_started ∷ announce_events w ++ audio_events)

  -- The outcome of a wall.
  abbrev pub walled : String → Round
  walled reason = over (bot_outcome 5 none reason false) (debug_screenshot reason ∷ [])

  -- `_detect_fatal_wall`: the reason of the first wall that is there.
  unfoldable pub detect_fatal_wall : Option String
  unfolding is_sign_in_required is_only_authenticated is_desktop_app_required is_passcode_screen
  detect_fatal_wall =
      if (is_sign_in_required m.page (first + 12)).0
      then some sign_in_wall
      else if (is_only_authenticated m.page (first + 13)).0
      then some only_authenticated_wall
      else if (is_desktop_app_required m.page (first + 14)).0
      then some desktop_app_wall
      else if (is_passcode_screen m.page (first + 15)).0
      then some passcode_wall
      else none

  -- The reason of the waiting-room timeout.
  abbrev pub never_admitted_reason : Bool → String
  never_admitted_reason not_started =
      (if not_started then "meeting-not-started timeout after " else "waiting-room timeout after ")
      <> m.seconds_text m.timeouts.waiting_room_s
      <> " seconds"

  -- The detail of the periodic evidence.
  abbrev pub evidence_detail : Bool × String → Bool × String → String
  evidence_detail (waiting, waiting_detail) (not_started, not_started_detail) =
      if waiting
      then waiting_detail
      else if not_started
      then not_started_detail
      else "no waiting-room or not-started notice visible"

  -- The rest of `if not recording_started:` once no wall is there
  unfoldable pub wait_for_admission : Watch → Round
  unfolding bot_outcome is_meeting_not_started is_in_waiting_room
  wait_for_admission w =
      if leb (start + m.timeouts.waiting_room_s) now
      then over
          (bot_outcome 2 none (never_admitted_reason (is_meeting_not_started m.page (first + 17)).0)
            false)
          (debug_screenshot "never admitted" ∷ [])
      else if leb w.next_admission_evidence now
      then goes_on (record w { next_admission_evidence = now + evidence_interval })
          (debug_screenshot (
              "waiting for admission ("
              <> evidence_detail (is_in_waiting_room m.page (first + 18))
                  (is_meeting_not_started m.page (first + 19))
              <> ")")
            ∷ [])
      else goes_on w []

  -- `if not recording_started:` for a bot that is not admitted
  unfoldable pub stay_outside : Watch → Option String → Round
  unfolding wait_for_admission bot_outcome
  stay_outside w (some reason) = walled reason
  stay_outside w none = wait_for_admission w

  -- `elif alone:`
  unfoldable pub watch_alone : Watch → Round
  unfolding finish_recording
  watch_alone w =
      if w.saw_others
      then elim w.alone_since [
        | none ↦ goes_on (record w { alone_since = some now }) []
        | some since ↦
            if leb (since + m.timeouts.alone_grace_s) now
            then finish_recording
                ("bot alone after others left; alone grace of "
                  <> m.seconds_text m.timeouts.alone_grace_s
                  <> " seconds elapsed")
                0 (some "alone")
            else goes_on w []
      ]
      else if leb (w.admitted_at + m.timeouts.empty_room_s) now
      then finish_recording
          ("room remained empty; empty-room timeout of "
            <> m.seconds_text m.timeouts.empty_room_s
            <> " seconds elapsed")
          4 none
      else goes_on (record w { unknown_since = none }) []

  -- The last `else:`; `since` is `unknown_since` with its default.
  unfoldable pub watch_unknown : Watch → ℕ → Round
  unfolding finish_recording
  watch_unknown w since =
      let w' = record w { unknown_since = some since } in
      if leb (since + m.timeouts.empty_room_s) now
      then shot "participant detection unavailable" (
          finish_recording
            ("participant count unavailable; empty-room timeout of "
              <> m.seconds_text m.timeouts.empty_room_s
              <> " seconds elapsed")
            5 none)
      else if leb w.next_unknown_evidence now
      then goes_on (record w' { next_unknown_evidence = now + evidence_interval })
          (debug_screenshot "participant detection uncertain (periodic evidence)" ∷ [])
      else goes_on w' []

  abbrev pub or_now : Option ℕ → ℕ
  or_now none = now
  or_now (some t) = t

  -- `count is not None and count >= 2`
  abbrev pub others_counted : Option ℕ → Bool
  others_counted none = false
  others_counted (some n) = leb 2 n

  -- `if anchor:`; `missed_leave` is `missed_controls`.
  unfoldable pub watch_room : Watch → Round
  unfolding watch_alone watch_unknown participant_count bot_alone_in_call
  watch_room w₀ =
      let w = record w₀ { missed_leave = 0 } in
      if others_counted (participant_count m.page (first + 14)).0
      then goes_on (record w { saw_others = true; alone_since = none; unknown_since = none }) []
      else if (bot_alone_in_call m.page (first + 17)).0
      then watch_alone w
      else if w.saw_others
      then goes_on (record w { alone_since = none; unknown_since = none }) []
      else watch_unknown w (or_now w.unknown_since)

  -- `else:`: the controls are gone.
  unfoldable pub watch_controls : Watch → Round
  unfolding bot_outcome show_nat
  watch_controls w =
      if leb ended_confirmation_polls (suc w.missed_leave)
      then over
          (after_stop (
            bot_outcome 0 (some "call_ended")
              ("in-call indicators gone for "
                <> show_nat (suc w.missed_leave)
                <> " polls; treating as call ended")
              true))
          (debug_screenshot "in-call controls gone" ∷ recorder_stopped ∷ [])
      else goes_on (record w { missed_leave = suc w.missed_leave }) []

  -- The part of the loop's body for a bot that is recording.
  unfoldable pub watch_call : Watch → Round
  unfolding watch_room watch_controls finish_recording bot_outcome is_removed is_call_ended
      in_call_controls
  watch_call w =
      let (removed, removed_detail) = is_removed m.page first in
      let (ended, ended_detail) = is_call_ended m.page (first + 4) in
      if removed
      then over (after_stop (bot_outcome 3 (some "removed") removed_detail true))
          (recorder_stopped ∷ [])
      else if ended
      then over (after_stop (bot_outcome 0 (some "call_ended") ended_detail true))
          (recorder_stopped ∷ [])
      else if not (m.recorder_is_running k)
      then shot "recorder process ended"
          (finish_recording "parec died mid-recording; leaving with a truncated WAV" 5 none)
      else if leb (w.admitted_at + m.timeouts.max_record_s) now
      then finish_recording
          ("max record duration reached after "
            <> m.seconds_text m.timeouts.max_record_s
            <> " seconds")
          0 (some "give_up")
      else if (in_call_controls m.page (first + 12)).0
      then watch_room w
      else watch_controls w

  -- The body of the loop.
  unfoldable pub poll : Watch → Round
  unfolding handle_stop admit stay_outside detect_fatal_wall watch_call is_admitted
  poll w =
      if m.stop_requested k
      then handle_stop w
      else if w.recording_started
      then watch_call w
      else if (is_admitted m.page (first + 8)).0
      then admit w
      else stay_outside w detect_fatal_wall

-- `while True:`, for at most `fuel` rounds from round `k` on: how it ended, and what it did.
unfoldable pub rounds : Meeting → ℕ → ℕ → ℕ → Watch → Option (Ending × List BotEvent)
unfolding poll
rounds m start zero k w = none
rounds m start (suc fuel) k w = elim (poll m start k w) [
  | over e es ↦ some (e, es)
  | goes_on w' es ↦ elim (rounds m start fuel (suc k) w') [
    | none ↦ none
    | some (e, more) ↦ some (e, es ++ more)
  ]
]

-- The loop reads the clock for `start`, and then in each round.
unfoldable pub run_call_loop : Meeting → ℕ → Option (Ending × List BotEvent)
unfolding rounds
run_call_loop m fuel = rounds m (m.clock 0) fuel 1 (initial (m.clock 0))
