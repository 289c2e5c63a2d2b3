-- ===== src/Errors.antt =====
-- src/oreeai_notetaker/core/exceptions.py: the errors that the services raise. A constructor holds
-- what the message is built from; `uuid_text` is `str` of a UUID.
use oreeai_notetaker.Prelude.{ℕ, Bool, true, false, String, ◌<>◌}
use oreeai_notetaker.Call.{CallStatus, value}

pub data AppError : Type 0 where
  -- `NotFoundError`
  not_found : ℕ → AppError
  -- `ConflictError`
  illegal_transition : CallStatus → CallStatus → AppError
  concurrency_limit : AppError

-- `except ConflictError`
abbrev pub is_conflict : AppError → Bool
is_conflict (not_found i) = false
is_conflict (illegal_transition a b) = true
is_conflict concurrency_limit = true

abbrev pub status_code : AppError → ℕ
status_code (not_found i) = 404
status_code (illegal_transition a b) = 409
status_code concurrency_limit = 409

abbrev pub message : (ℕ → String) → AppError → String
message uuid_text (not_found i) = "Call " <> uuid_text i <> " not found"
message uuid_text (illegal_transition a b) = "illegal transition " <> value a <> " -> " <> value b
message uuid_text concurrency_limit = "CALL_CONCURRENCY_LIMIT reached"

pub data Result {ℓ} (A : Type ℓ) : Type ℓ where
  ok : A → Result A
  err : AppError → Result A

infixl 5 ◌>>=◌
abbrev pub ◌>>=◌ {ℓ κ} : {A : Type ℓ} {B : Type κ} → Result A → (A → Result B) → Result B
ok a >>= f = f a
err e >>= f = err e
