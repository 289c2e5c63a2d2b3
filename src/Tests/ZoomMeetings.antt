-- ===== src/Tests/ZoomMeetings.antt =====
-- Zoom meetings (bot/listeners_zoom.py).
use oreeai_notetaker.Prelude.{
  refl, [], ◌∷◌, ◌+◌, ◌*◌, ◌≤◌, ◌≡◌, Bool, true, false, List, none, some, arith,
}
use oreeai_notetaker.Bot.Loop.{
  Ending, BotEvent, recorder_started, recorder_stopped, leave_clicked, announcement,
}
use oreeai_notetaker.Bot.Legal.{one, starts, stops, announcements}
use oreeai_notetaker.Zoom.States.{Page}
use oreeai_notetaker.Zoom.Loop.{Meeting, run_call_loop}
use oreeai_notetaker.Zoom.InCall.{EndsLegally}
use oreeai_notetaker.Zoom.Finishes.{run_call_loop-Runs}
use oreeai_notetaker.Zoom.Spared.{is_spared, run_call_loop_spared}

-- The toolbar is there, and the chat says that the bot has been removed.
abbrev page : Page
page = record {
  leave_button = λ at. some "Leave";
  end_button = λ at. none;
  name_input = λ at. none;
  join_button = λ at. none;
  waiting_room_indicator = λ at. none;
  meeting_not_started_indicator = λ at. none;
  removed_dialog = λ at. none;
  removed_indicator = λ at. some "You have been removed";
  meeting_ended_dialog = λ at. none;
  call_ended_indicator = λ at. some "This meeting has been ended";
  participant_count_button = λ at. none;
  alone_hint = λ at. none;
  passcode_input = λ at. none;
  passcode_required_indicator = λ at. none;
  sign_in_required_indicator = λ at. none;
  only_authenticated_indicator = λ at. none;
  desktop_app_required_indicator = λ at. none;
  audio_join_button = λ at. true;
}

abbrev meeting : Meeting
meeting = record {
  page = page;
  timeouts = record {
    waiting_room_s = 600;
    empty_room_s = 300;
    alone_grace_s = 60;
    max_record_s = 10;
  };
  clock = λ k. 5 + k;
  seconds_text = λ t. "10.0";
  announces = true;
  stop_requested = λ k. false;
  recorder_fails = λ k. false;
  recorder_is_running = λ k. true;
  leave_fails = λ k. false;
  leave_search_raises = λ k. false;
  stop_raises = λ k. false;
}

-- Its rounds take a millisecond.
abbrev slow : Meeting
slow = record meeting { clock = λ k. 5 + 1000 * k }

run_call_loop-Runs_example :
    (e : Ending) × (es : List BotEvent) × (run_call_loop slow 3 ≡ some (e, es))
    × (b : Bool) × EndsLegally slow b e
    × (starts es ≡ one b)
    × (stops es ≡ one b)
    × (announcements es ≤ 1)
run_call_loop-Runs_example =
    run_call_loop-Runs slow 1 3 (λ n. omega arith) (omega arith) (omega arith) (omega arith)
      (omega arith)

run_call_loop_spared_example : is_spared (some "give_up") ≡ true
unfolding run_call_loop
run_call_loop_spared_example =
    run_call_loop_spared meeting 20
      (record {
        exit_code = 0;
        end_reason = some "give_up";
        reason = "max record duration reached after 10.0 seconds";
        recording_started = true;
      })
      (recorder_started ∷ announcement ∷ leave_clicked ∷ recorder_stopped ∷ [])
      (record { toolbar = λ at. refl; not_removed = λ at. refl; not_ended = λ at. refl }) refl
