-- ===== src/Bot/Entry.antt =====
-- bot/join_meet.py and bot/record_audio.py: `main`, and the check of the finished recording.
use oreeai_notetaker.Prelude.{
  ℕ, ◌+◌, not, ◌||◌, List, [], ◌∷◌, ◌++◌, Option, none, some, String, ◌<>◌, ltb, leb, ◌==◌,
  if◌then◌else◌, str_eq,
}
use oreeai_notetaker.Bot.Loop.{BotOutcome, outcome, raised}
use oreeai_notetaker.Bot.Emit.{emit_result}
use oreeai_notetaker.Bot.Recording.{wav_rms}
use oreeai_notetaker.Bot.Environ.{
  timeouts_from_env, silence_floor_from_env, consent_granted, log_level, meeting_url, call_id,
}
use oreeai_notetaker.Bot.Join.{Process, Step, printed, Run, run_browser}

pub data RecordingStatus : Type 0 where
  ok silent missing unreadable : RecordingStatus

module _ (p : Process) where
  unfoldable pub check_recording : String → ℕ → RecordingStatus
  unfolding wav_rms
  check_recording path floor = elim (wav_rms p.root (p.wav_file path)) [
    | none ↦ if p.wav_exists path then unreadable else missing
    | some rms ↦ if ltb rms floor then silent else ok
  ]

  unfoldable pub bot_wav_path : String
  unfolding call_id
  bot_wav_path = "/audio/" <> call_id p.os <> ".wav"

  unfoldable pub status_code_of : RecordingStatus → ℕ
  status_code_of ok = 0
  status_code_of silent = 7
  status_code_of missing = 5
  status_code_of unreadable = 5

  unfoldable pub finalize_recording : BotOutcome → ℕ
  unfolding check_recording bot_wav_path status_code_of silence_floor_from_env
  finalize_recording o =
      if not (o.exit_code == 0) || not o.recording_started
      then o.exit_code
      else status_code_of (check_recording bot_wav_path (silence_floor_from_env p.os))

  -- `_emit_result`: the line is logged at INFO, if the level lets that pass.
  unfoldable pub report : Option BotOutcome → ℕ → List Step
  unfolding emit_result call_id log_level
  report o code =
      if leb (log_level p.os) 20
      then printed (emit_result p.quoted (call_id p.os) o code) ∷ []
      else []

  -- The end of `main`, after its `try`.
  unfoldable pub conclude : Run → Option (ℕ × List Step)
  unfolding finalize_recording report
  conclude none = none
  conclude (some (outcome o, es)) =
      let code = finalize_recording o in some (code, es ++ report (some o) code)
  conclude (some (raised, es)) = some (5, es ++ report none 5)

  -- Its exit code and what it has done, where the call loop has `fuel` rounds.
  unfoldable pub bot_main : ℕ → Option (ℕ × List Step)
  unfolding conclude run_browser consent_granted report
  bot_main fuel =
      if not (consent_granted p.os)
      then some (6, report none 6)
      else if str_eq (meeting_url p.os) ""
      then some (5, report none 5)
      else conclude (run_browser p fuel)

  -- Rounds that are enough for the call loop.
  abbrev pub enough_rounds : ℕ
  enough_rounds =
      let timeouts = timeouts_from_env p.os in timeouts.waiting_room_s + timeouts.max_record_s + 2
