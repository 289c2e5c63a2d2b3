-- ===== src/Storage/S3.antt =====
-- src/oreeai_notetaker/integrations/object_storage/s3.py: the adapter over boto3's client, whose
-- answers are an argument.
use oreeai_notetaker.Prelude.{ℕ, Option, none, some, String, str_eq, if◌then◌else◌}
use oreeai_notetaker.Storage.{
  AudioSource, StorageResult, stored, failure, upload_failed, delete_failed, source_unavailable,
  other_exception, ObjectStorageClient, audio_key, s3_uri,
}

-- An answer; a `BotoCoreError` or a `ClientError`; an `S3UploadFailedError`; an `OSError`; or another
-- exception.
pub data BotoResult {ℓ} (A : Type ℓ) : Type ℓ where
  answered : A → BotoResult A
  boto_error s3_upload_failed os_error other_error : BotoResult A

-- The entries of a HEAD answer that the adapter reads.
pub record Head : Type 0 where
  pub content_length : Option ℕ
  pub server_side_encryption : Option String

-- Each is given the moment, the bucket and the key first.
pub record Boto : Type 0 where
  pub put_object : ℕ → String → String → String → BotoResult (Unit {0})
  pub head_object : ℕ → String → String → BotoResult Head
  pub delete_object : ℕ → String → String → BotoResult (Unit {0})
  -- with the path and `ExtraArgs["ServerSideEncryption"]`
  pub upload_file : ℕ → String → String → String → Option String → BotoResult (Unit {0})
  pub generate_presigned_url : ℕ → String → String → ℕ → BotoResult String

-- `transcribable_source` after the HEAD answered, and after the URL was signed: its `except` clause
-- takes the errors of boto, the OSErrors and the missing entry.
abbrev presigned_source : ℕ → BotoResult String → StorageResult AudioSource
presigned_source size (answered url) =
    stored (record { url = some url; local_path = none; size_bytes = size })
presigned_source size boto_error = failure source_unavailable
presigned_source size os_error = failure source_unavailable
presigned_source size s3_upload_failed = failure other_exception
presigned_source size other_error = failure other_exception

abbrev headed_source : Option ℕ → BotoResult String → StorageResult AudioSource
headed_source none presigned = failure source_unavailable
headed_source (some size) presigned = presigned_source size presigned

module _ (boto : Boto) (uuid_text : ℕ → String) (bucket sse : String) where
  -- `{"ServerSideEncryption": self._sse} if self._sse else {}`
  abbrev pub extra_args : Option String
  extra_args = if str_eq sse "" then none else some sse

  unfoldable pub s3_upload_audio : ℕ → ℕ → String → StorageResult String
  s3_upload_audio at i file_path =
      elim (boto.upload_file at bucket (audio_key uuid_text i) file_path extra_args) [
        | answered _ ↦ stored (s3_uri bucket (audio_key uuid_text i))
        | boto_error ↦ failure upload_failed
        | s3_upload_failed ↦ failure upload_failed
        | os_error ↦ failure upload_failed
        | other_error ↦ failure other_exception
      ]

  unfoldable pub s3_delete_audio : ℕ → ℕ → StorageResult (Unit {0})
  s3_delete_audio at i = elim (boto.delete_object at bucket (audio_key uuid_text i)) [
    | answered _ ↦ stored tt
    | boto_error ↦ failure delete_failed
    | s3_upload_failed ↦ failure other_exception
    | os_error ↦ failure other_exception
    | other_error ↦ failure other_exception
  ]

  unfoldable pub s3_presigned_url : ℕ → ℕ → ℕ → StorageResult String
  s3_presigned_url at i ttl_seconds =
      elim (boto.generate_presigned_url at bucket (audio_key uuid_text i) ttl_seconds) [
        | answered url ↦ stored url
        | boto_error ↦ failure other_exception
        | s3_upload_failed ↦ failure other_exception
        | os_error ↦ failure other_exception
        | other_error ↦ failure other_exception
      ]

  unfoldable pub s3_transcribable_source : ℕ → ℕ → ℕ → StorageResult AudioSource
  s3_transcribable_source at i ttl_seconds =
      elim (boto.head_object at bucket (audio_key uuid_text i)) [
        | answered h ↦
            headed_source h.content_length
              (boto.generate_presigned_url at bucket (audio_key uuid_text i) ttl_seconds)
        | boto_error ↦ failure source_unavailable
        | os_error ↦ failure source_unavailable
        | s3_upload_failed ↦ failure other_exception
        | other_error ↦ failure other_exception
      ]

  abbrev pub s3_client : ObjectStorageClient
  s3_client = record {
    upload_audio = s3_upload_audio;
    delete_audio = s3_delete_audio;
    presigned_url = s3_presigned_url;
    transcribable_source = s3_transcribable_source;
  }
