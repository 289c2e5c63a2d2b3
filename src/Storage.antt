-- ===== src/Storage.antt =====
-- src/oreeai_notetaker/integrations/object_storage/base.py and services/storage.py: the contract of
-- the storage adapters, and the service that the workers call.
pub mod Local
pub mod S3
pub mod Adapters
use oreeai_notetaker.Prelude.{
  ℕ, Bool, Option, String, ◌<>◌, or_default, is_some, if◌then◌else◌, not,
}

-- The subclasses of `ObjectStorageError`, and any other exception.
pub data StorageError : Type 0 where
  configuration_error upload_failed delete_failed source_unavailable other_exception : StorageError

pub data StorageResult {ℓ} (A : Type ℓ) : Type ℓ where
  stored : A → StorageResult A
  failure : StorageError → StorageResult A

pub record AudioSource : Type 0 where
  pub url : Option String
  pub local_path : Option String
  pub size_bytes : ℕ

-- The model validator `_exactly_one_source`.
abbrev pub exactly_one_source : AudioSource → Bool
exactly_one_source s = if is_some s.url then not (is_some s.local_path) else is_some s.local_path

pub audio_key : (ℕ → String) → ℕ → String
audio_key uuid_text i = "calls/" <> uuid_text i <> "/audio.wav"

pub s3_uri : String → String → String
s3_uri bucket key = "s3://" <> bucket <> "/" <> key

-- `ObjectStorageClient`. The first argument is the moment of the call: a client's answers can
-- differ from one moment to the next.
pub record ObjectStorageClient : Type 0 where
  pub upload_audio : ℕ → ℕ → String → StorageResult String
  pub delete_audio : ℕ → ℕ → StorageResult (Unit {0})
  pub presigned_url : ℕ → ℕ → ℕ → StorageResult String
  pub transcribable_source : ℕ → ℕ → ℕ → StorageResult AudioSource

-- `ObjectStorageService`, over its client and S3_PRESIGN_TTL_SECONDS.
module _ (client : ObjectStorageClient) (presign_ttl : ℕ) where
  abbrev pub upload_for_call : ℕ → ℕ → String → StorageResult String
  upload_for_call = client.upload_audio

  abbrev pub delete_for_call : ℕ → ℕ → StorageResult (Unit {0})
  delete_for_call = client.delete_audio

  abbrev pub presigned_url_for_call : ℕ → ℕ → Option ℕ → StorageResult String
  presigned_url_for_call at i ttl = client.presigned_url at i (or_default ttl presign_ttl)

  abbrev pub transcribable_source_for_call : ℕ → ℕ → Option ℕ → StorageResult AudioSource
  transcribable_source_for_call at i ttl =
      client.transcribable_source at i (or_default ttl presign_ttl)
