-- ===== src/Tests/Meetings.antt =====
-- A meeting in which the bot is let in at once and removed in the fourth round (bot/listeners.py).
use oreeai_notetaker.Prelude.{
  ℕ, refl, [], ◌∷◌, ◌+◌, ◌*◌, ◌≤◌, ◌≡◌, Bool, true, false, List, none, some, arith, leb,
  if◌then◌else◌,
}
use oreeai_notetaker.Bot.States.{Page, CountControl}
use oreeai_notetaker.Bot.Loop.{
  Meeting, Ending, outcome, BotEvent, recorder_started, recorder_stopped, leave_clicked,
  announcement, run_call_loop,
}
use oreeai_notetaker.Bot.Legal.{EndsWell, one, starts, stops, announcements}
use oreeai_notetaker.Bot.Alone.{Counted}
use oreeai_notetaker.Bot.Deserted.{run_call_loop-Counted}
use oreeai_notetaker.Bot.Deadline.{run_call_loop_in_time}

abbrev page : Page
page = record {
  knocking_indicator = λ at. none;
  leave_call_button = λ at. true;
  removed_indicator = λ at. if leb 64 at then some "You've been removed" else none;
  call_ended_indicator = λ at. none;
  join_blocked_indicator = λ at. false;
  name_input = λ at. none;
  join_button = λ at. none;
  participant_count_button = λ at. none;
  alone_hint = λ at. none;
}

abbrev pub meeting : Meeting
meeting = record {
  page = page;
  timeouts = record {
    waiting_room_s = 600;
    empty_room_s = 300;
    alone_grace_s = 60;
    max_record_s = 10800;
  };
  clock = λ k. 5 + k;
  seconds_text = λ t. "600.0";
  announces = true;
  stop_requested = λ k. false;
  recorder_fails = λ k. false;
  recorder_is_running = λ k. true;
  leave_fails = λ k. false;
  stop_raises = λ k. false;
}

-- Its rounds take four milliseconds, so that the deadlines are over in the first and the fourth.
abbrev slow : Meeting
slow = record meeting { clock = λ k. 5 + 4000 * k }

run_call_loop_in_time_example :
    (e : Ending) × (es : List BotEvent) × (run_call_loop slow 4 ≡ some (e, es))
    × (b : Bool) × EndsWell slow b e
    × (starts es ≡ one b)
    × (stops es ≡ one b)
    × (announcements es ≤ 1)
run_call_loop_in_time_example =
    run_call_loop_in_time slow 1 4 (λ n. omega arith) (omega arith) (omega arith) (omega arith)
      (omega arith)

abbrev participants : ℕ → CountControl
participants n = record {
  label_count = some n;
  text_count = none;
  bare_label = none;
  bare_text = none;
  detail = "";
}

-- Two others are there in the second and third rounds, and then nobody is.
abbrev deserted : Meeting
deserted = record meeting {
  page = record page {
    removed_indicator = λ at. none;
    participant_count_button = λ at. some (participants (if leb 64 at then 1 else 3));
  };
  timeouts = record {
    waiting_room_s = 600;
    empty_room_s = 300;
    alone_grace_s = 2;
    max_record_s = 10800;
  };
}

run_call_loop-Counted_example : (j : ℕ) × Counted deserted j
unfolding run_call_loop
run_call_loop-Counted_example =
    run_call_loop-Counted deserted 12
      (outcome (record {
        exit_code = 0;
        end_reason = some "alone";
        reason = "bot alone after others left; alone grace of 600.0 seconds elapsed";
        recording_started = true;
      }))
      (recorder_started ∷ announcement ∷ leave_clicked ∷ recorder_stopped ∷ []) refl refl
