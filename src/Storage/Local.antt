-- ===== src/Storage/Local.antt =====
-- src/oreeai_notetaker/integrations/object_storage/local.py: the adapter over a directory. What the
-- disk does is an argument.
use oreeai_notetaker.Prelude.{ℕ, none, some, String, ◌<>◌}
use oreeai_notetaker.Storage.{
  AudioSource, StorageResult, stored, failure, upload_failed, source_unavailable, other_exception,
  ObjectStorageClient, audio_key,
}

-- An answer, or an `OSError`.
pub data DiskResult {ℓ} (A : Type ℓ) : Type ℓ where
  done_so : A → DiskResult A
  os_error : DiskResult A

pub record Disk : Type 0 where
  -- `_copy`: the directories, and then the file
  pub copy : ℕ → String → String → DiskResult (Unit {0})
  -- `unlink(missing_ok=True)`
  pub unlink_missing_ok : ℕ → String → DiskResult (Unit {0})
  -- `stat().st_size`
  pub st_size : ℕ → String → DiskResult ℕ
  pub resolve : String → String

module _ (disk : Disk) (uuid_text : ℕ → String) (root : String) where
  abbrev local_target : ℕ → String
  local_target i = root <> "/" <> audio_key uuid_text i

  unfoldable pub local_upload_audio : ℕ → ℕ → String → StorageResult String
  local_upload_audio at i file_path = elim (disk.copy at file_path (local_target i)) [
    | done_so _ ↦ stored ("file://" <> disk.resolve (local_target i))
    | os_error ↦ failure upload_failed
  ]

  unfoldable pub local_delete_audio : ℕ → ℕ → StorageResult (Unit {0})
  local_delete_audio at i = elim (disk.unlink_missing_ok at (local_target i)) [
    | done_so _ ↦ stored tt
    | os_error ↦ failure other_exception
  ]

  unfoldable pub local_presigned_url : ℕ → ℕ → ℕ → StorageResult String
  local_presigned_url at i ttl_seconds = stored ("file://" <> disk.resolve (local_target i))

  unfoldable pub local_transcribable_source : ℕ → ℕ → ℕ → StorageResult AudioSource
  local_transcribable_source at i ttl_seconds = elim (disk.st_size at (local_target i)) [
    | done_so size ↦
        stored (record { url = none; local_path = some (local_target i); size_bytes = size })
    | os_error ↦ failure source_unavailable
  ]

  abbrev pub local_client : ObjectStorageClient
  local_client = record {
    upload_audio = local_upload_audio;
    delete_audio = local_delete_audio;
    presigned_url = local_presigned_url;
    transcribable_source = local_transcribable_source;
  }
