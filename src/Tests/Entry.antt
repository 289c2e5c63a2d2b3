-- ===== src/Tests/Entry.antt =====
-- A bot that joins as a guest, is let in and is removed; and others that do not come so far
-- (bot/join_meet.py).
use oreeai_notetaker.Prelude.{
  ◌*◌, ◌/◌, negsuc, refl, ◌≡◌, true, false, [], ◌∷◌, Option, none, some, String, ◌<>◌, arith,
  if◌then◌else◌, str_eq, pos, strip, ends_with_paren, before_last_paren,
}
use oreeai_notetaker.Bot.Loop.{recorder_started, recorder_stopped, announcement}
use oreeai_notetaker.Bot.Recording.{Wav, wav_rms}
use oreeai_notetaker.Bot.Environ.{Environ, value_error, env_float, finite}
use oreeai_notetaker.Bot.Join.{
  Process, launched, closed, name_typed, microphone_muted, join_clicked, opened, printed,
  screenshot, in_call, account_display_name,
}
use oreeai_notetaker.Bot.Entry.{bot_main, enough_rounds}
use oreeai_notetaker.Bot.Exits.{Told, bot_main-Told}
use oreeai_notetaker.Tests.Meetings.{meeting}

abbrev variables : String → Option String
variables name =
    if str_eq name "MEETING_URL"
    then some " https://meet.google.com/abc-defg-hij"
    else if str_eq name "CONSENT_ACK"
    then some "yes"
    else if str_eq name "CALL_ID"
    then some "6"
    else none

abbrev os : Environ
os = record {
  variable = variables;
  float = λ s. value_error;
  lower = λ s. s;
  upper = λ s. s;
  level = λ s. none;
}

abbrev quiet : Wav
quiet = record {
  is_uncompressed = true;
  sampwidth = 2;
  nframes = 3;
  chunks = some (pos 3 ∷ negsuc 2 ∷ []) ∷ some (pos 6 ∷ []) ∷ [];
}

quiet_level : wav_rms (λ total count. total / count) (some quiet) ≡ some 18
unfolding wav_rms
quiet_level = refl

abbrev guest : Process
guest = record {
  os = os;
  raises = λ s. false;
  is_dir = λ s. true;
  is_accessible = λ s. true;
  signed_in = false;
  avatar_label = some "Google Account: Oree Notetaker (oree@example.com)";
  account_label = λ s. some "Oree Notetaker (oree@example.com)";
  join_blocked_indicator = false;
  name_input = true;
  microphone_toggle = some "Turn off microphone";
  camera_toggle = none;
  turns_off = λ s. true;
  join_button = true;
  meeting = meeting;
  recorder_left_running = false;
  wav_file = λ path. some quiet;
  root = λ total count. 1000000 * (total / count);
  wav_exists = λ path. true;
  quoted = λ s. "\"" <> s <> "\"";
}

bot_main-Told_example : Told guest (bot_main guest (enough_rounds guest))
bot_main-Told_example = bot_main-Told guest (λ n. omega arith)

guest_removed :
    bot_main guest 9
    ≡ some (
      3,
      launched
          ∷ opened "https://meet.google.com/abc-defg-hij"
          ∷ name_typed
          ∷ microphone_muted
          ∷ join_clicked
          ∷ in_call recorder_started
          ∷ in_call announcement
          ∷ in_call recorder_stopped
          ∷ closed
          ∷ printed
              "OREEAI_BOT_RESULT {\"call_id\": \"6\", \"end_reason\": \"removed\", \"exit_code\": 3}"
          ∷ [],
    )
unfolding bot_main strip
guest_removed = refl

without_microphone :
    bot_main (record guest { microphone_toggle = none }) 9
    ≡ some (
      5,
      launched
          ∷ opened "https://meet.google.com/abc-defg-hij"
          ∷ name_typed
          ∷ screenshot "microphone toggle not found"
          ∷ closed
          ∷ printed "OREEAI_BOT_RESULT {\"call_id\": \"6\", \"end_reason\": null, \"exit_code\": 5}"
          ∷ [],
    )
unfolding bot_main strip
without_microphone = refl

name_of_account : account_display_name guest ≡ some "Oree Notetaker"
unfolding account_display_name ends_with_paren strip before_last_paren
name_of_account = refl

floor_out_of_range :
    env_float
      (record os { variable = λ s. some "40000"; float = λ s. finite (pos 40000000000) })
      "BOT_SILENCE_RMS_FLOOR"
      50000000
      (some 32767000000)
    ≡ 50000000
unfolding env_float strip
floor_out_of_range = refl
