-- ===== src/Runner/Contract.antt =====
-- What src/oreeai_notetaker/workers/bot_runner.py relies on in the adapters: that they raise nothing but
-- the errors of their contracts (src/oreeai_notetaker/integrations/object_storage/base.py,
-- integrations/transcription/base.py).
use oreeai_notetaker.Prelude.{
  ℕ, zero, suc, ◌+◌, ◌≡◌, refl, inl, inr, Bool, true, false, Option, none, some, String, Bool-cases,
  ltb,
}
use oreeai_notetaker.Storage.{
  AudioSource, ObjectStorageClient, StorageResult, stored, failure, upload_failed, other_exception,
}
use oreeai_notetaker.Transcription.{
  Transcript, TranscriptionResult, TranscriptionClient, transcribed, refused, escaped, transcribe,
  transcribe_with_retries, transient, permanent, audio_too_large, retry_attempts,
}
use oreeai_notetaker.World.{Env, built}

-- `upload_audio` raises only `UploadFailed`; `transcribable_source` raises an `ObjectStorageError`;
-- a provider raises only a `TranscriptionError`.
abbrev pub is_upload_answer : StorageResult String → Bool
is_upload_answer (stored _) = true
is_upload_answer (failure upload_failed) = true
is_upload_answer (failure _) = false

abbrev pub is_source_answer : StorageResult AudioSource → Bool
is_source_answer (failure other_exception) = false
is_source_answer _ = true

abbrev pub is_answer {ℓ} : {A : Type ℓ} → TranscriptionResult A → Bool
is_answer escaped = false
is_answer _ = true

pub record IsTyped (env : Env) : Type 0 where
  pub uploads :
      (client : ObjectStorageClient)
      → env.storage ≡ built client
      → (at i : ℕ) (path : String) → is_upload_answer (client.upload_audio at i path) ≡ true
  pub sources :
      (client : ObjectStorageClient)
      → env.storage ≡ built client
      → (at i ttl : ℕ) → is_source_answer (client.transcribable_source at i ttl) ≡ true
  pub answers :
      (client : TranscriptionClient)
      → env.transcription ≡ built client
      → (at : ℕ) (source : AudioSource) → is_answer (client.transcribe at source) ≡ true

module _ (client : TranscriptionClient) (at : ℕ) (source : AudioSource) where
  loop_answer :
      ((at : ℕ) → is_answer (client.transcribe at source) ≡ true)
      → (left attempt : ℕ) (last_error : Option String)
      → is_answer (transcribe_with_retries client at source left attempt last_error).result ≡ true
  unfolding transcribe_with_retries
  loop_answer h zero attempt e = refl
  loop_answer h (suc left) attempt e =
      go (client.transcribe (at + attempt) source) refl (h (at + attempt))
        (λ m. loop_answer h left (attempt + 1) (some m))
    where
      go :
          (r : TranscriptionResult Transcript)
          → client.transcribe (at + attempt) source ≡ r
          → is_answer r ≡ true
          → ((m : String)
              → is_answer
                  (transcribe_with_retries client at source left (attempt + 1) (some m)).result
                ≡ true)
          → is_answer (transcribe_with_retries client at source (suc left) attempt e).result ≡ true
      go (transcribed t) found ok rest = rw (found, transcribe_with_retries) refl
      go (refused (transient m)) found ok rest = rw (found, transcribe_with_retries) (rest m)
      go (refused (permanent m)) found ok rest = rw (found, transcribe_with_retries) refl
      go (refused (audio_too_large m)) found ok rest = rw (found, transcribe_with_retries) refl
      go escaped found ok rest = cc

  pub transcribe_answer :
      (max : ℕ)
      → ((at : ℕ) → is_answer (client.transcribe at source) ≡ true)
      → is_answer (transcribe client at source max).result ≡ true
  unfolding transcribe
  transcribe_answer max h = elim (Bool-cases (ltb max source.size_bytes)) [
    | inl big ↦ rw big refl
    | inr fits ↦ rw fits (loop_answer h retry_attempts 0 none)
  ]
