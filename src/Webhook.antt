-- ===== src/Webhook.antt =====
-- src/oreeai_notetaker/workers/webhook_dispatcher.py: signed delivery with bounded retries. What is
-- not under the repository (JSON, HMAC, the texts of UUIDs and times, httpx) is an argument.
pub mod Retry
pub mod Contract
use oreeai_notetaker.Prelude.{
  ℕ, zero, suc, ◌+◌, ◌-◌, Bool, true, false, ◌&&◌, List, [], ◌∷◌, ◌++◌, Option, none, some, String,
  leb, ltb, if◌then◌else◌, get_or, length, is_some, map, show_nat, ◌<>◌,
}
use Prim.Native.Nat.{min}
use mathlib.Core.Option
use oreeai_notetaker.Call.{Call, value, SpeakerSegment}

-- `DEFAULT_BACKOFF_S`, in seconds
abbrev pub default_backoff_s : List ℕ
default_backoff_s = 1 ∷ 4 ∷ 16 ∷ 64 ∷ 256 ∷ []

-- The dict of `build_payload`.
pub record Payload : Type 0 where
  pub call_id : String
  pub status : String
  pub end_reason : Option String
  pub failure_reason : Option String
  pub user_ref : String
  pub transcript : Option (List SpeakerSegment)
  pub audio_url : Option String
  pub created_at : String
  pub finished_at : String

-- The standard library's text of a UUID and of a time, JSON and HMAC.
pub record Codec : Type 0 where
  pub uuid_text : ℕ → String
  pub isoformat : ℕ → String
  -- `json.dumps(payload, default=str)`
  pub dumps : Payload → String
  -- `hmac.new(secret, message, sha256).hexdigest()`
  pub hmac_sha256 : String → String → String

-- One POST as it goes out.
pub record WebhookRequest : Type 0 where
  pub url : String
  pub content : String
  pub x_ot_timestamp : String
  pub x_ot_signature : String

-- What comes of a POST: a response and the time it came at, an `httpx.HTTPError`, or another
-- exception, which `deliver` does not catch.
pub data PostResult : Type 0 where
  response : ℕ → ℕ → PostResult
  http_error : PostResult
  raised : PostResult

-- `answer` is what `deliver` returned, or `none` where the exception came through.
pub record Delivery : Type 0 where
  pub call : Call
  pub answer : Option Bool
  pub posts : List WebhookRequest
  pub sleeps : List ℕ

unfoldable pub build_signature : Codec → String → String → String → String
build_signature codec secret timestamp body = codec.hmac_sha256 secret (timestamp <> ":" <> body)

unfoldable pub build_payload : Codec → Call → Payload
build_payload codec call = record {
  call_id = codec.uuid_text call.id;
  status = value call.status;
  end_reason = call.end_reason;
  failure_reason = call.failure_reason;
  user_ref = call.user_ref;
  transcript = call.transcript;
  audio_url = call.audio_url;
  created_at = codec.isoformat call.created_at;
  finished_at = codec.isoformat call.updated_at;
}

unfoldable pub build_request : Codec → ℕ → Call → WebhookRequest
unfolding build_signature build_payload
build_request codec time call =
    let body = codec.dumps (build_payload codec call) in
    let timestamp = show_nat time in
    record {
      url = call.webhook_url;
      content = body;
      x_ot_timestamp = timestamp;
      x_ot_signature = build_signature codec call.webhook_secret timestamp body;
    }

-- What the status code of a response decides.
pub data Verdict : Type 0 where
  delivered rejected retry escaped : Verdict

abbrev pub verdict : PostResult → Verdict
verdict (response status at) =
    if leb 200 status && ltb status 300
    then delivered
    else if ltb status 500
    then rejected
    else retry
verdict http_error = retry
verdict raised = escaped

abbrev pub answered_at : PostResult → ℕ
answered_at (response status at) = at
answered_at _ = 0

-- `webhook_attempts += 1`, and the flush, whose UPDATE sets `updated_at`.
abbrev pub count_attempt : ℕ → Call → Call
count_attempt now call = record call {
  webhook_attempts = call.webhook_attempts + 1;
  updated_at = now;
}

-- One more attempt in front of what came after it.
abbrev pub before : WebhookRequest → List ℕ → Delivery → Delivery
before request slept d = record d { posts = request ∷ d.posts; sleeps = slept ++ d.sleeps }

-- The `for` loop: `left` attempts from `attempt` on. `now` is the transaction's `func.now()`.
module _ (now max_attempts : ℕ) (post : ℕ → PostResult) (request : WebhookRequest) where
  abbrev pub sleep_after : ℕ → List ℕ
  sleep_after attempt =
      if ltb attempt (max_attempts - 1)
      then get_or default_backoff_s (min attempt (length default_backoff_s - 1)) 0 ∷ []
      else []

  unfoldable pub attempts : ℕ → ℕ → Call → Delivery
  attempts zero attempt call = record { call = call; answer = some false; posts = []; sleeps = [] }
  attempts (suc left) attempt call =
      let tried = count_attempt now call in
      elim (verdict (post attempt)) [
        | delivered ↦ record {
          call = record tried { webhook_delivered_at = some (answered_at (post attempt)) };
          answer = some true;
          posts = request ∷ [];
          sleeps = [];
        }
        | rejected ↦ record { call = tried; answer = some false; posts = request ∷ []; sleeps = [] }
        | escaped ↦ record { call = tried; answer = none; posts = request ∷ []; sleeps = [] }
        | retry ↦ before request (sleep_after attempt) (attempts left (attempt + 1) tried)
      ]

-- `time` is `int(time.time())`.
unfoldable pub deliver : Codec → ℕ → ℕ → ℕ → (ℕ → PostResult) → Call → Delivery
unfolding attempts build_request
deliver codec now time max_attempts post call =
    if is_some call.webhook_delivered_at
    then record { call = call; answer = some true; posts = []; sleeps = [] }
    else attempts now max_attempts post (build_request codec time call) max_attempts 0 call
