-- ===== src/Runner/ExitTable.antt =====
-- src/oreeai_notetaker/workers/bot_runner.py: what a bot's exit means (the table of bot/README.md).
use oreeai_notetaker.Prelude.{
  ℕ, ℤ, pos, Bool, true, false, ◌&&◌, ◌||◌, List, [], ◌∷◌, Option, none, some, String, ◌<>◌, str_eq,
  ◌==◌, if◌then◌else◌, show_int, or_default,
}
use oreeai_notetaker.Call.{CallStatus, recording, status_eq}
use oreeai_notetaker.Transcription.Json
use oreeai_notetaker.Transcription.Json.{Fields, as_str}

-- `_VALID_END_REASONS`
abbrev pub valid_end_reasons : List String
valid_end_reasons = "call_ended" ∷ "removed" ∷ "alone" ∷ "give_up" ∷ []

abbrev pub text_in : String → List String → Bool
text_in s [] = false
text_in s (x ∷ xs) = if str_eq s x then true else text_in s xs

-- The payload of the bot's `OREEAI_BOT_RESULT` line, and `_result_end_reason` of it.
unfoldable pub result_end_reason : Option Fields → Option String
unfolding as_str Json.get
result_end_reason none = none
result_end_reason (some result) = elim (as_str (Json.get "end_reason" result)) [
  | none ↦ none
  | some value ↦ if text_in value valid_end_reasons then some value else none
]

-- `exit_code == n`, where the code may be `None`
abbrev pub exit_is : ℕ → Option ℤ → Bool
exit_is n (some (pos m)) = m == n
exit_is n _ = false

pub exit_text : Option ℤ → String
unfolding show_int
exit_text none = "None"
exit_text (some n) = show_int n

-- `_failure_reason`
unfoldable pub failure_reason : Option ℤ → CallStatus → String
unfolding exit_text
failure_reason exit_code status =
    if exit_is 2 exit_code
    then "never_admitted"
    else if exit_is 4 exit_code
    then (if status_eq status recording then "no_show" else "join_timeout")
    else if exit_is 6 exit_code
    then "consent_missing"
    else if exit_is 7 exit_code
    then "silent_recording"
    else "bot_error:exit_" <> exit_text exit_code

-- What `apply_exit_status` decides first: the call ended well, with this end reason, or it failed.
pub data Decision : Type 0 where
  ended failing : String → Decision

abbrev pub is_alone : Option String → Bool
is_alone none = false
is_alone (some r) = str_eq r "alone"

unfoldable pub decide_exit : Option ℤ → Option String → CallStatus → Decision
unfolding failure_reason
decide_exit exit_code end_reason status =
    let in_recording = status_eq status recording in
    let clean = (exit_is 0 exit_code || exit_is 3 exit_code) && in_recording in
    let alone_via_silence = exit_is 7 exit_code && in_recording && is_alone end_reason in
    if clean || alone_via_silence
    then ended (
        if alone_via_silence
        then "alone"
        else if exit_is 3 exit_code
        then "removed"
        else or_default end_reason "call_ended")
    else failing (failure_reason exit_code status)
