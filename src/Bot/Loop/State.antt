-- ===== src/Bot/Loop/State.antt =====
-- bot/listeners.py: what the call loop is given, what it keeps, and what it comes to.
use oreeai_notetaker.Prelude.{
  ℕ, Bool, false, not, ◌&&◌, List, [], ◌∷◌, Option, none, some, String, ◌==◌, if◌then◌else◌, str_eq,
}
use oreeai_notetaker.Runner.ExitTable.{text_in}
use oreeai_notetaker.Bot.States.{Page}

pub record Timeouts : Type 0 where
  pub waiting_room_s : ℕ
  pub empty_room_s : ℕ
  pub alone_grace_s : ℕ
  pub max_record_s : ℕ

pub record BotOutcome : Type 0 where
  pub exit_code : ℕ
  pub end_reason : Option String
  pub reason : String
  pub recording_started : Bool

-- How the loop ends: it returns an outcome, or raises.
pub data Ending : Type 0 where
  outcome : BotOutcome → Ending
  raised : Ending

-- `_VALID_END_REASONS`
abbrev pub bot_end_reasons : List String
bot_end_reasons = "call_ended" ∷ "removed" ∷ "alone" ∷ "give_up" ∷ []

-- `BotOutcome.__post_init__`: whether it lets the outcome pass.
abbrev pub post_init : ℕ → Option String → String → Bool
post_init exit_code none reason = not (str_eq reason "")
post_init exit_code (some e) reason =
    if str_eq reason ""
    then false
    else if str_eq e "removed"
    then exit_code == 3
    else text_in e bot_end_reasons && exit_code == 0

-- `BotOutcome(…)`
unfoldable pub bot_outcome : ℕ → Option String → String → Bool → Ending
bot_outcome exit_code end_reason reason recording_started =
    if post_init exit_code end_reason reason
    then outcome (record {
      exit_code = exit_code;
      end_reason = end_reason;
      reason = reason;
      recording_started = recording_started;
    })
    else raised

pub data BotEvent : Type 0 where
  recorder_started recorder_stopped leave_clicked announcement : BotEvent
  debug_screenshot : String → BotEvent

-- The loop's local variables.
pub record Watch : Type 0 where
  pub admitted_at : ℕ
  pub recording_started : Bool
  pub announced : Bool
  pub saw_others : Bool
  pub alone_since : Option ℕ
  pub unknown_since : Option ℕ
  pub missed_leave : ℕ
  pub next_admission_evidence : ℕ
  pub next_unknown_evidence : ℕ

-- What the loop is given, and what the recorder and the clicks come to in each round.
pub record Meeting : Type 0 where
  pub page : Page
  pub timeouts : Timeouts
  -- `_now()`; the text of a duration in seconds; whether there is an `announce`
  pub clock : ℕ → ℕ
  pub seconds_text : ℕ → String
  pub announces : Bool
  pub stop_requested : ℕ → Bool
  pub recorder_fails : ℕ → Bool
  pub recorder_is_running : ℕ → Bool
  pub leave_fails : ℕ → Bool
  -- `recorder.stop()` raises when parec does not end.
  pub stop_raises : ℕ → Bool

-- What a round comes to: the loop goes on, or it is over.
pub data Round : Type 0 where
  goes_on : Watch → List BotEvent → Round
  over : Ending → List BotEvent → Round
