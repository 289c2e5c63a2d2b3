-- ===== src/Storage/Adapters.antt =====
-- The adapters keep the contract of src/oreeai_notetaker/integrations/object_storage/base.py.
use oreeai_notetaker.Prelude.{ℕ, ◌≡◌, Bool, true, false, Option, String, arith}
use oreeai_notetaker.Storage.{
  AudioSource, exactly_one_source, StorageResult, stored, failure, ObjectStorageClient, audio_key,
}
use oreeai_notetaker.Storage.Local.{
  Disk, local_client, local_upload_audio, local_transcribable_source,
}
use oreeai_notetaker.Storage.S3.{
  Boto, BotoResult, other_error, s3_upload_failed, s3_client, extra_args, s3_upload_audio,
  s3_transcribable_source,
}
use oreeai_notetaker.Runner.Contract.{is_upload_answer, is_source_answer}

-- The source passes `_exactly_one_source`.
abbrev pub is_one_source : StorageResult AudioSource → Bool
is_one_source (stored s) = exactly_one_source s
is_one_source (failure e) = true

-- What the runner relies on in a storage client.
pub record IsContract (client : ObjectStorageClient) : Type 0 where
  pub uploads : (at i : ℕ) (path : String) → is_upload_answer (client.upload_audio at i path) ≡ true
  pub sources : (at i ttl : ℕ) → is_source_answer (client.transcribable_source at i ttl) ≡ true
  pub one_source : (at i ttl : ℕ) → is_one_source (client.transcribable_source at i ttl) ≡ true

-- The errors that boto3 documents for these calls.
abbrev pub is_boto {ℓ} : {A : Type ℓ} → BotoResult A → Bool
is_boto other_error = false
is_boto _ = true

-- Those of a call that is no transfer.
abbrev pub is_request {ℓ} : {A : Type ℓ} → BotoResult A → Bool
is_request other_error = false
is_request s3_upload_failed = false
is_request _ = true

-- Whatever the disk does, the local adapter raises only the errors of the contract on an upload and for
-- a source, and a source of its has exactly one of a URL and a path.
pub local_client-IsContract :
    (disk : Disk) (uuid_text : ℕ → String) (root : String)
    → IsContract (local_client disk uuid_text root)
unfolding local_upload_audio local_transcribable_source
local_client-IsContract disk uuid_text root = record {
  uploads = λ at i path. ground arith;
  sources = λ at i ttl. ground arith;
  one_source = λ at i ttl. ground arith;
}

-- If boto3 raises only the errors that it documents, then the S3 adapter raises only the errors of the
-- contract on an upload and for a source, and a source of its has exactly one of a URL and a path.
pub s3_client-IsContract :
    (boto : Boto) (uuid_text : ℕ → String) (bucket sse : String)
    → ((at : ℕ) (b k p : String) (s : Option String) → is_boto (boto.upload_file at b k p s) ≡ true)
    → ((at : ℕ) (b k : String) → is_request (boto.head_object at b k) ≡ true)
    → ((at : ℕ) (b k : String) (ttl : ℕ)
        → is_request (boto.generate_presigned_url at b k ttl) ≡ true)
    → IsContract (s3_client boto uuid_text bucket sse)
unfolding s3_upload_audio s3_transcribable_source
s3_client-IsContract boto uuid_text bucket sse upload head presign = record {
  uploads = λ at i path.
      ground (
        arith,
        upload at bucket (audio_key uuid_text i) path (extra_args boto uuid_text bucket sse),
      );
  sources = λ at i ttl. ground (
    arith,
    head at bucket (audio_key uuid_text i),
    presign at bucket (audio_key uuid_text i) ttl,
  );
  one_source = λ at i ttl. ground arith;
}
