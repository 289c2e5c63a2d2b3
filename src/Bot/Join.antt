-- ===== src/Bot/Join.antt =====
-- bot/join_meet.py and bot/consent.py: from the browser's start to the end of the call loop. What calls
-- Playwright may raise, which `raises` tells, and then has done nothing; what has been done is a list.
use oreeai_notetaker.Prelude.{
  ℕ, Bool, true, false, List, [], ◌∷◌, ◌++◌, map, Option, none, some, String, ◌<>◌, not,
  if◌then◌else◌, str_eq, strip, ends_with_paren, before_last_paren,
}
use oreeai_notetaker.Bot.Loop.{
  Meeting, Ending, outcome, raised, bot_outcome, BotEvent, recorder_stopped, run_call_loop,
}
use oreeai_notetaker.Bot.Recording.{Wav}
use oreeai_notetaker.Bot.Environ.{
  Environ, timeouts_from_env, is_authenticated, environment, meeting_url, profile_dir,
  verify_consent_identity,
}

-- Where Playwright is called; the pauses are counted.
pub data Stage : Type 0 where
  launching checking_session reading_account checking_blocked dwelling typing muting_microphone
        muting_camera finding_join joining closing :
      Stage
  pausing : ℕ → Stage
  opening : String → Stage

pub data Step : Type 0 where
  launched closed name_typed microphone_muted microphone_already_off camera_muted join_clicked :
      Step
  opened screenshot printed : String → Step
  in_call : BotEvent → Step

-- What the bot's process finds.
pub record Process : Type 0 where
  pub os : Environ
  pub raises : Stage → Bool
  -- `os.path.isdir` and `os.access` of the profile
  pub is_dir : String → Bool
  pub is_accessible : String → Bool
  -- Whether `is_signed_in` finds the account's avatar; its label when it is looked for again; and the
  -- group of `_GOOGLE_ACCOUNT_LABEL` in a text
  pub signed_in : Bool
  pub avatar_label : Option String
  pub account_label : String → Option String
  -- The controls before the join: a toggle is its `aria-label`, `turns_off` the test of it.
  pub join_blocked_indicator : Bool
  pub name_input : Bool
  pub microphone_toggle : Option String
  pub camera_toggle : Option String
  pub turns_off : String → Bool
  pub join_button : Bool
  -- What the call loop finds, and whether the recorder runs after an exception
  pub meeting : Meeting
  pub recorder_left_running : Bool
  -- The finished file, if `wave` opens it; the root of a mean; and `os.path.exists`
  pub wav_file : String → Option Wav
  pub root : ℕ → ℕ → ℕ
  pub wav_exists : String → Bool
  -- `json.dumps` of a text
  pub quoted : String → String

abbrev pub Run : Type 0
Run = Option (Ending × List Step)

-- `done` before what a run does.
unfoldable pub after : List Step → Run → Run
after done none = none
after done (some (e, more)) = some (e, done ++ more)

abbrev pub not_empty : String → Option String
not_empty s = if str_eq s "" then none else some s

-- A name without the address behind it.
abbrev pub without_email : String → String
without_email rest =
    if ends_with_paren rest
    then elim (before_last_paren rest) [ none ↦ rest | some front ↦ strip front ]
    else rest

module _ (p : Process) where
  unfoldable pub validate_profile_dir : String → Option String
  validate_profile_dir path =
      if str_eq path ""
      then some "profile directory is not configured"
      else if not (p.is_dir path)
      then some "profile directory is missing (run make bot-login first)"
      else if not (p.is_accessible path)
      then some "profile directory is not readable and writable"
      else none

  unfoldable pub account_display_name : Option String
  account_display_name = elim p.avatar_label [
    | none ↦ none
    | some label ↦ elim (p.account_label label) [
      | none ↦ none
      | some group ↦ not_empty (without_email (strip group))
    ]
  ]

  -- A step that may raise, and what comes after it.
  unfoldable pub step : Stage → List Step → Run → Run
  unfolding after
  step stage done rest = if p.raises stage then some (raised, []) else after done rest

  -- `return BotOutcome(EXIT_BOT_ERROR, None, reason)`
  unfoldable pub fail : String → Run
  unfolding bot_outcome
  fail reason = some (bot_outcome 5 none reason false, [])

  -- The `try` around `run_call_loop`: an exception stops a recorder that runs.
  unfoldable pub tried : Option (Ending × List BotEvent) → Run
  tried none = none
  tried (some (outcome o, es)) = some (outcome o, map in_call es)
  tried (some (raised, es)) = some (
    raised,
    map in_call es ++ (if p.recorder_left_running then in_call recorder_stopped ∷ [] else []),
  )

  abbrev pub own_meeting : Meeting
  own_meeting = record p.meeting { timeouts = timeouts_from_env p.os; announces = true }

  unfoldable pub record_call : ℕ → Run
  unfolding tried run_call_loop timeouts_from_env
  record_call fuel = tried (run_call_loop own_meeting fuel)

  unfoldable pub click_join : ℕ → Run
  unfolding step record_call fail
  click_join fuel = step finding_join [] (
      if p.join_button
      then step (pausing 2) [] (step joining (join_clicked ∷ []) (record_call fuel))
      else after (screenshot "join button never appeared" ∷ [])
          (fail "join control never appeared"))

  -- `_mute_media` of the camera, and what follows.
  unfoldable pub mute_camera : ℕ → Option String → Run
  unfolding step click_join
  mute_camera fuel none = step muting_camera [] (click_join fuel)
  mute_camera fuel (some aria) =
      step muting_camera (if p.turns_off aria then camera_muted ∷ [] else []) (click_join fuel)

  -- `_mute_media` of the microphone, which is required, and what follows.
  unfoldable pub mute_microphone : ℕ → Option String → Run
  unfolding step mute_camera fail
  mute_microphone fuel none =
      step muting_microphone (screenshot "microphone toggle not found" ∷ [])
        (fail "microphone toggle not found")
  mute_microphone fuel (some aria) =
      step muting_microphone
        ((if p.turns_off aria then microphone_muted else microphone_already_off) ∷ [])
        (step (pausing 1) [] (mute_camera fuel p.camera_toggle))

  unfoldable pub join_and_record : Bool → ℕ → Run
  unfolding step mute_microphone fail
  join_and_record authenticated fuel =
      step (opening (meeting_url p.os)) (opened (meeting_url p.os) ∷ []) (
        step checking_blocked [] (
          if p.join_blocked_indicator
          then after (screenshot "meeting blocks anonymous guests (host quick access off)" ∷ [])
              (fail "meeting blocks anonymous guests")
          else step dwelling [] (
              if authenticated
              then step (pausing 0) [] (mute_microphone fuel p.microphone_toggle)
              else step typing (if p.name_input then name_typed ∷ [] else [])
                  (step (pausing 0) [] (mute_microphone fuel p.microphone_toggle)))))

  abbrev pub session_check_url : String
  session_check_url = "https://myaccount.google.com"

  -- The end of `_check_session` for a problem with the account's name, and what follows without one.
  unfoldable pub identified : Option String → Run → Run
  unfolding fail
  identified none rest = rest
  identified (some identity_problem) rest = fail ("consent identity: " <> identity_problem)

  -- `_check_session`, and what follows if it finds no error.
  unfoldable pub check_session : Run → Run
  unfolding step fail identified account_display_name verify_consent_identity environment
  check_session rest =
      if p.raises (opening session_check_url)
      then fail "google session check page failed to load"
      else after (opened session_check_url ∷ []) (
          step checking_session [] (
            if p.signed_in
            then step reading_account []
                (identified (verify_consent_identity account_display_name (environment p.os)) rest)
            else fail
                "google session invalid: no signed-in session visible (run make bot-login to sign in)"))

  -- `finally: close()`
  unfoldable pub closing_after : Run → Run
  closing_after none = none
  closing_after (some (e, es)) =
      if p.raises closing then some (raised, es) else some (e, es ++ (closed ∷ []))

  -- `_run` in the authenticated mode, for a problem with the profile.
  unfoldable pub run_authenticated : ℕ → Option String → Run
  unfolding step fail check_session join_and_record closing_after
  run_authenticated fuel (some problem) = fail ("authenticated mode: " <> problem)
  run_authenticated fuel none =
      step launching (launched ∷ []) (closing_after (check_session (join_and_record true fuel)))

  -- `_run`
  unfoldable pub run_browser : ℕ → Run
  unfolding step run_authenticated join_and_record closing_after validate_profile_dir
      is_authenticated profile_dir
  run_browser fuel =
      if is_authenticated p.os
      then run_authenticated fuel (validate_profile_dir (profile_dir p.os))
      else step launching (launched ∷ []) (closing_after (join_and_record false fuel))
