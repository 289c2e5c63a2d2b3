-- ===== src/Transcription/Status.antt =====
-- Which HTTP results are retried
-- (src/oreeai_notetaker/integrations/transcription/deepgram.py, services/transcription.py).
use oreeai_notetaker.Prelude.{◌≤◌, ◌≡◌, ◌⊎◌, ◌↔◌, true, false, none, some, arith}
use oreeai_notetaker.Transcription.Json.{Json, obj, Fields}
use oreeai_notetaker.Transcription.Policy.{is_transient}
use oreeai_notetaker.Transcription.Response.{Python, parse_response}
use oreeai_notetaker.Transcription.Deepgram.{
  HttpResult, timed_out, connection_failed, unreadable, response, read_result,
}

-- The results that a retry may mend: no answer in time, no connection, 429 and 5xx.
abbrev pub IsRetryable : HttpResult → Type 0
IsRetryable timed_out = Unit {0}
IsRetryable connection_failed = Unit {0}
IsRetryable unreadable = ⊥
IsRetryable (response status body) = (status ≡ 429) ⊎ (500 ≤ status)

parse_response_settled :
    (python : Python) (fs : Fields) → is_transient (parse_response python fs) ≡ false
unfolding parse_response
parse_response_settled python fs = ground arith

-- The service retries a result exactly if a retry may mend it: a timeout, a failed connection, 429
-- and 5xx. A body that cannot be read is never retried, for it was the only copy.
pub read_result_retry :
    (python : Python) (r : HttpResult)
    → (is_transient (read_result python r) ≡ true) ↔ IsRetryable r
unfolding read_result
read_result_retry python timed_out = ground arith
read_result_retry python connection_failed = ground arith
read_result_retry python unreadable = ground arith
read_result_retry python (response status none) = ground arith
read_result_retry python (response status (some (obj fs))) =
    ground (arith, parse_response_settled python fs)
read_result_retry python (response status (some Json.null)) = ground arith
read_result_retry python (response status (some (Json.bool b))) = ground arith
read_result_retry python (response status (some (Json.int n))) = ground arith
read_result_retry python (response status (some (Json.float x))) = ground arith
read_result_retry python (response status (some (Json.str t))) = ground arith
read_result_retry python (response status (some (Json.arr xs))) = ground arith
