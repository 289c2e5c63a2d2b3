-- ===== src/Tests/Calls.antt =====
-- Runs of the call service on a small table, and requests for calls
-- (src/oreeai_notetaker/services/call.py, schemas/call.py).
use oreeai_notetaker.Prelude.{ℕ, false, none, ◌≡◌, refl, ◌↔◌, true, List, [], ◌∷◌, some}
use oreeai_notetaker.Call.{Call, recording, failed, status_in, get, AllRows}
use oreeai_notetaker.Schema.Validate.{
  invalid, is_meeting_url, validate, IsAccepted, validate-IsAccepted,
}
use oreeai_notetaker.Lifecycle.{legal_transitions}
use oreeai_notetaker.Lifecycle.Move.{Edge, legal_iff}
use oreeai_notetaker.Lifecycle.Runs.{
  Request, run, creation, bot_started, processing_begun, call_done, call_failed,
}
use oreeai_notetaker.Lifecycle.History.{run-StatusPath, run_terminal, StatusPath, SameOrigin}
use oreeai_notetaker.Lifecycle.Rows.{IsExplained, run-IsExplained}
use oreeai_notetaker.Tests.Data.{table, create_request, recorded_call, failed_call, queued_call}

abbrev requests : List (ℕ × Request)
requests =
    (10, processing_begun 7)
    ∷ (11, call_done 7 "call_ended" (some []) (some "s3://b/calls/7/audio.wav"))
    ∷ (12, creation 10 create_request)
    ∷ (13, call_failed 7 "late")
    ∷ (14, bot_started 9 "oreeai-bot-9")
    ∷ []

legal_iff_example : (status_in failed (legal_transitions recording) ≡ true) ↔ Edge recording failed
legal_iff_example = legal_iff recording failed

run-StatusPath_example :
    (c : Call) × (get 7 (run 2 table requests) ≡ some c)
    × StatusPath recording c.status
    × SameOrigin recorded_call c
run-StatusPath_example = run-StatusPath 2 7 table requests recorded_call refl

run_terminal_example : get 8 (run 2 table requests) ≡ some failed_call
run_terminal_example = run_terminal 2 8 table requests failed_call refl refl

run-IsExplained_example : AllRows IsExplained (run 2 (queued_call ∷ []) requests)
run-IsExplained_example =
    run-IsExplained 2 (queued_call ∷ []) requests (tt, (tt, (tt, (tt, (tt, tt)))))
      (record { failure = refl; ending = refl; container = λ h. refl }, tt)

meet_urls :
    (is_meeting_url "https://meet.google.com/abc-defg-hij?authuser=0" ≡ true)
    × (is_meeting_url "https://meet.google.com/abc-defg-hijk" ≡ false)
    × (is_meeting_url "https://meet.google.com/Abc-defg-hij" ≡ false)
unfolding is_meeting_url
meet_urls = (refl, refl, refl)

validate-IsAccepted_example : IsAccepted (validate (λ url. true) create_request)
validate-IsAccepted_example = validate-IsAccepted (λ url. true) create_request

without_consent :
    validate
      (λ url. true)
      (record {
        meeting_url = "https://meet.google.com/abc-defg-hij";
        user_ref = "u";
        consent_ack = false;
        webhook_url = "https://example.com/";
        webhook_secret = "0123456789abcdef";
        platform = none;
      })
    ≡ invalid ("consent_missing" ∷ [])
unfolding validate is_meeting_url
without_consent = refl
