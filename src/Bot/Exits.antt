-- ===== src/Bot/Exits.antt =====
-- How the bot's process ends, and what it has done until then (bot/join_meet.py, bot/README.md, Exit
-- codes).
use oreeai_notetaker.Prelude.{
  ℕ, suc, ◌<◌, ◌≡◌, refl, Bool, true, false, not, ◌||◌, List, [], ◌++◌, Option, none, some,
  if◌then◌else◌, str_eq, ◌==◌, arith,
}
use oreeai_notetaker.Bot.Loop.{BotOutcome, Ending, outcome, raised}
use oreeai_notetaker.Bot.Legal.{if_holds}
use oreeai_notetaker.Bot.Environ.{consent_granted, meeting_url, silence_floor_from_env}
use oreeai_notetaker.Bot.Join.{Process, Step, Run, run_browser}
use oreeai_notetaker.Bot.Entry.{
  RecordingStatus, ok, silent, missing, unreadable, check_recording, bot_wav_path, status_code_of,
  finalize_recording, conclude, bot_main, enough_rounds, report,
}
use oreeai_notetaker.Bot.Careful.{is_careful, calls, has_joined, Came, Good}
use oreeai_notetaker.Bot.Browser.{run_browser-Good}

-- What the check of the recording comes to.
abbrev pub recording_status : Process → RecordingStatus
recording_status p = check_recording p (bot_wav_path p) (silence_floor_from_env p.os)

-- The exit code for what the check of the recording comes to.
pub data Judges : RecordingStatus → ℕ → Type 0 where
  audible : Judges ok 0
  inaudible : Judges silent 7
  no_file : Judges missing 5
  no_audio : Judges unreadable 5

-- The browser's part ended so, after these steps.
abbrev pub Ended : Process → Ending → List Step → Type 0
Ended p e es = Came p e (calls es) (has_joined false es)

-- The exit codes, each with the outcome of the browser's part, if there is one, and its steps.
pub data IsExit (p : Process) : Option BotOutcome → ℕ → List Step → Type 0 where
  refused : consent_granted p.os ≡ false → IsExit p none 6 []
  nowhere : consent_granted p.os ≡ true → str_eq (meeting_url p.os) "" ≡ true → IsExit p none 5 []
  broken : {es : List Step} → consent_granted p.os ≡ true → Ended p raised es → IsExit p none 5 es
  without_recording :
      {o : BotOutcome} {es : List Step}
      → consent_granted p.os ≡ true
      → Ended p (outcome o) es
      → o.recording_started ≡ false
      → IsExit p (some o) o.exit_code es
  not_clean :
      {o : BotOutcome} {es : List Step}
      → consent_granted p.os ≡ true
      → Ended p (outcome o) es
      → (o.exit_code == 0) ≡ false
      → IsExit p (some o) o.exit_code es
  checked :
      {o : BotOutcome} {es : List Step} {status : RecordingStatus} {code : ℕ}
      → consent_granted p.os ≡ true
      → Ended p (outcome o) es
      → (o.exit_code == 0) ≡ true
      → o.recording_started ≡ true
      → recording_status p ≡ status
      → Judges status code
      → IsExit p (some o) code es

module _ (p : Process) where
  -- What `main` comes to.
  abbrev pub Told : Option (ℕ × List Step) → Type 0
  Told r =
      (code : ℕ) × (o : Option BotOutcome) × (es : List Step) × (r
        ≡ some (code, es ++ report p o code))
      × IsExit p o code es
      × (is_careful false false es ≡ true)

  status_code_of-Judges : (s : RecordingStatus) → Judges s (status_code_of p s)
  unfolding status_code_of
  status_code_of-Judges ok = audible
  status_code_of-Judges silent = inaudible
  status_code_of-Judges missing = no_file
  status_code_of-Judges unreadable = no_audio

  finalize_recording-IsExit :
      (o : BotOutcome) (es : List Step)
      → consent_granted p.os ≡ true
      → Ended p (outcome o) es
      → IsExit p (some o) (finalize_recording p o) es
  unfolding finalize_recording
  finalize_recording-IsExit o es granted came = go (o.exit_code == 0) o.recording_started refl refl
    where
      go :
          (zero_code started : Bool)
          → (o.exit_code == 0) ≡ zero_code
          → o.recording_started ≡ started
          → IsExit p
              (some o)
              (if not zero_code || not started
                then o.exit_code
                else status_code_of p (recording_status p))
              es
      go false started z s = not_clean granted came z
      go true false z s = without_recording granted came s
      go true true z s = checked granted came z s refl (status_code_of-Judges (recording_status p))

  conclude-Told :
      (r : Run) → consent_granted p.os ≡ true → Good p false false r → Told (conclude p r)
  unfolding conclude
  conclude-Told none granted h = absurd h
  conclude-Told (some (outcome o, es)) granted (careful, came) = (
    finalize_recording p o,
    some o,
    es,
    refl,
    finalize_recording-IsExit o es granted came,
    careful,
  )
  conclude-Told (some (raised, es)) granted (careful, came) =
      (5, none, es, refl, broken granted came, careful)

-- If each round of the call loop takes at least a microsecond, then `main` returns, for enough rounds.
-- The last that it does is to log, at INFO, the result line with the call's id, the exit code that it
-- returns, and the end reason of its outcome, if there is one. The code is 6 without consent and 5
-- without a URL, and then nothing was done before that line. It is 5 after an exception: the call
-- loop raised, or a step around it. Otherwise there is an outcome: that of the call loop, after the
-- join was clicked and with what the loop did among the steps, or an error of code 5 for what kept the
-- bot from the join, and then the join was not clicked. The code is that of the outcome, but for a clean
-- one with a recording it is 0 if the recording passes its check, 7 if it is silent, and 5 if it is
-- missing or unreadable. On every path the join is clicked only after the microphone was found to be
-- off or was turned off, and nothing of the call loop, the recorder's start included, comes before it.
pub bot_main-Told :
    (p : Process)
    → ((n : ℕ) → p.meeting.clock n < p.meeting.clock (suc n))
    → Told p (bot_main p (enough_rounds p))
unfolding bot_main is_careful
bot_main-Told p tick =
    if_holds (Told p) (not (consent_granted p.os))
      (λ no. (6, none, [], refl, refused (ground (arith, no)), refl))
      (λ asked.
        let granted : consent_granted p.os ≡ true = ground (arith, asked) in
        if_holds (Told p) (str_eq (meeting_url p.os) "")
          (λ empty. (5, none, [], refl, nowhere granted empty, refl))
          (λ given.
            conclude-Told p (run_browser p (enough_rounds p)) granted (run_browser-Good p tick)))
