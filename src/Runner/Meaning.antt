-- ===== src/Runner/Meaning.antt =====
-- The table of exit codes in bot/README.md, against `apply_exit_status` of
-- src/oreeai_notetaker/workers/bot_runner.py.
use oreeai_notetaker.Prelude.{
  ℤ, pos, ◌≡◌, ◌≢◌, ◌⊎◌, Bool, false, Option, none, some, String, ◌<>◌, ◌||◌,
}
use oreeai_notetaker.Call.{CallStatus, recording}
use oreeai_notetaker.Runner.ExitTable.{Decision, ended, failing, exit_text, exit_is}

-- The codes that have a row of their own.
abbrev pub is_listed : Option ℤ → Bool
is_listed code = exit_is 2 code || exit_is 4 code || exit_is 6 code || exit_is 7 code

abbrev pub is_clean : Option ℤ → Bool
is_clean code = exit_is 0 code || exit_is 3 code

pub data Means : Option ℤ → Option String → CallStatus → Decision → Type 0 where
  clean_end : {r : String} → Means (some (pos 0)) (some r) recording (ended r)
  -- The table has no end reason here.
  operator_stop : Means (some (pos 0)) none recording (ended "call_ended")
  removed_mid_call : {e : Option String} → Means (some (pos 3)) e recording (ended "removed")
  alone_via_silence : Means (some (pos 7)) (some "alone") recording (ended "alone")
  never_admitted :
      {e : Option String} {s : CallStatus} → Means (some (pos 2)) e s (failing "never_admitted")
  no_show : {e : Option String} → Means (some (pos 4)) e recording (failing "no_show")
  join_timeout :
      {e : Option String} {s : CallStatus}
      → s ≢ recording
      → Means (some (pos 4)) e s (failing "join_timeout")
  consent_missing :
      {e : Option String} {s : CallStatus} → Means (some (pos 6)) e s (failing "consent_missing")
  silent_recording :
      {e : Option String} {s : CallStatus}
      → (e ≢ some "alone") ⊎ (s ≢ recording)
      → Means (some (pos 7)) e s (failing "silent_recording")
  -- Any other code; a clean one too, if the call is not being recorded.
  bot_error :
      {code : Option ℤ} {e : Option String} {s : CallStatus}
      → is_listed code ≡ false
      → (is_clean code ≡ false) ⊎ (s ≢ recording)
      → Means code e s (failing ("bot_error:exit_" <> exit_text code))
