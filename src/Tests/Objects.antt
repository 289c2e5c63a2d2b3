-- ===== src/Tests/Objects.antt =====
-- A disk and a bucket (src/oreeai_notetaker/integrations/object_storage/).
use oreeai_notetaker.Prelude.{refl, some, show_nat, ◌<>◌}
use oreeai_notetaker.Storage.Local.{Disk, done_so, os_error, local_client}
use oreeai_notetaker.Storage.S3.{Boto, boto_error, answered, s3_client}
use oreeai_notetaker.Storage.Adapters.{IsContract, local_client-IsContract, s3_client-IsContract}

-- Copying fails, and the copy that is there has 44 bytes.
abbrev disk : Disk
disk = record {
  copy = λ at source target. os_error;
  unlink_missing_ok = λ at path. done_so tt;
  st_size = λ at path. done_so 44;
  resolve = λ path. "/srv" <> path;
}

abbrev boto : Boto
boto = record {
  put_object = λ at b k sse. answered tt;
  head_object = λ at b k.
      answered (record { content_length = some 44; server_side_encryption = some "AES256" });
  delete_object = λ at b k. answered tt;
  upload_file = λ at b k path sse. boto_error;
  generate_presigned_url = λ at b k ttl. answered ("https://" <> b <> "/" <> k);
}

local_client-IsContract_example : IsContract (local_client disk show_nat "objects")
local_client-IsContract_example = local_client-IsContract disk show_nat "objects"

s3_client-IsContract_example : IsContract (s3_client boto show_nat "recordings" "AES256")
s3_client-IsContract_example =
    s3_client-IsContract boto show_nat "recordings" "AES256" (λ at b k p s. refl) (λ at b k. refl)
      (λ at b k ttl. refl)
