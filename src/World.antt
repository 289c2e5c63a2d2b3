-- ===== src/World.antt =====
-- What the worker process sees: the committed table of calls, the scratch WAVs, and the moment. The
-- services outside the repository (Postgres' clock and locks, the receiver, the storage and
-- transcription clients, the disk, docker) are one environment, whose answers may differ at each
-- moment; an event is noted for each effect on them (src/oreeai_notetaker/core/config.py,
-- db/session.py, workers/bot_runner.py).
use oreeai_notetaker.Prelude.{ℕ, suc, Bool, true, false, List, ◌∷◌, Option, String, if◌then◌else◌}
use oreeai_notetaker.Call.{Table}
use oreeai_notetaker.Errors.{AppError, Result, ok, err, is_conflict}
use oreeai_notetaker.Schema.{CallRead}
use oreeai_notetaker.Webhook.{Codec, PostResult, WebhookRequest}
use oreeai_notetaker.Storage.{ObjectStorageClient}
use oreeai_notetaker.Transcription.{TranscriptionClient}

-- The settings of core/config.py that the worker reads.
pub record Settings : Type 0 where
  pub call_concurrency_limit : ℕ
  pub bot_image_tag : String
  pub bot_docker_network : String
  pub bot_max_record_duration : ℕ
  pub audio_host_path : String
  pub webhook_max_attempts : ℕ
  pub s3_presign_ttl_seconds : ℕ
  pub audio_retention_days : ℕ
  pub failed_audio_retention_days : ℕ
  pub audio_max_bytes : ℕ

-- What a `build_…_service` gives: the service's client, or a `ConfigurationError` and its message.
pub data Built (A : Type 0) : Type 0 where
  built : A → Built A
  misconfigured : String → Built A

pub data Event : Type 0 where
  -- A webhook dispatch for a call, with the requests that went out.
  dispatched : ℕ → List WebhookRequest → Event
  uploaded asked_source provider_called object_deleted wav_unlinked : ℕ → Event
  -- A docker command, the start of a bot's container, and the end of a profile's copy.
  docker_called bot_spawned : List String → Event
  profile_discarded : String → Event
  -- A heartbeat, with its time.
  heartbeat_set : ℕ → Event
  bot_task_started : ℕ → Event

-- The moment is the first argument of each answer.
pub record Env : Type 0 where
  pub settings : Settings
  pub codec : Codec
  -- `func.now()` of a transaction, and `datetime.now(UTC)`
  pub func_now : ℕ → ℕ
  pub wall_clock : ℕ → ℕ
  pub post : ℕ → ℕ → PostResult
  pub storage : Built ObjectStorageClient
  pub transcription : Built TranscriptionClient
  -- `shutil.disk_usage(…).free`, or `none` for an OSError
  pub disk_free : ℕ → Option ℕ
  -- The calls whose scratch WAV cannot be unlinked.
  pub unlink_fails : ℕ → Bool
  -- The rows that another transaction holds.
  pub locked : ℕ → ℕ → Bool

pub record World : Type 0 where
  pub table : Table
  pub scratch : List ℕ
  pub tick : ℕ
  pub trace : List Event

pub data Outcome {ℓ} (A : Type ℓ) : Type ℓ where
  returned : A → Outcome A
  -- An `AppError` that nobody caught.
  threw : AppError → Outcome A
  -- Another exception.
  crashed : Outcome A

-- Something that the worker does: it returns or raises, and leaves a world.
abbrev pub Action : Type 0 → Type 0
Action A = World → Outcome A × World

infixl 5 ◌>>=◌ ◌>>◌
abbrev pub ◌>>=◌ : {A B : Type 0} → Action A → (A → Action B) → Action B
◌>>=◌ m f w =
    let (r, w') = m w in
    elim r [ returned a ↦ f a w' | threw e ↦ (threw e, w') | crashed ↦ (crashed, w') ]

abbrev pub ◌>>◌ : {B : Type 0} → Action (Unit {0}) → Action B → Action B
m >> k = m >>= λ _. k

abbrev pub pure : {A : Type 0} → A → Action A
pure a w = (returned a, w)

abbrev pub nothing_more : Action (Unit {0})
nothing_more w = (returned tt, w)

-- Time goes on, and the effect is noted.
abbrev pub note : Event → World → World
note e w = record w { tick = suc w.tick; trace = e ∷ w.trace }

-- A transaction: its body is given `func.now()` and the committed table.
abbrev pub Body : Type 0
Body = ℕ → Table → Result (CallRead × Table)

abbrev pub commit : Table → World → World
commit t w = record w { table = t; tick = suc w.tick }

-- `try: …; await session.commit()` with `except ConflictError: await session.rollback()`: whether
-- it was committed.
unfoldable pub transact : Env → Body → Action Bool
transact env body w = elim (body (env.func_now w.tick) w.table) [
  | ok (_, t) ↦ (returned true, commit t w)
  | err e ↦ (if is_conflict e then returned false else threw e, commit w.table w)
]
