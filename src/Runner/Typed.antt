-- ===== src/Runner/Typed.antt =====
-- src/oreeai_notetaker/workers/bot_runner.py: what comes of every exit of a bot, if the adapters
-- raise nothing but the errors of their contracts
-- (src/oreeai_notetaker/integrations/object_storage/base.py, integrations/transcription/base.py).
use oreeai_notetaker.Prelude.{ℕ, ◌≡◌, refl, true, false, some, String, List, ◌<>◌, contains}
use oreeai_notetaker.Call.{processing, Call, get, Fate, fate_of}
use oreeai_notetaker.Storage.{
  AudioSource, ObjectStorageClient, StorageResult, stored, failure, upload_failed, other_exception,
  delete_failed, configuration_error, source_unavailable,
}
use oreeai_notetaker.Transcription.{
  Transcript, TranscriptionResult, TranscriptionClient, transcribed, refused, escaped,
  failure_detail, transcribe,
}
use oreeai_notetaker.World.{
  Env, World, Outcome, Built, built, misconfigured, note, provider_called, asked_source,
}
use oreeai_notetaker.Runner.ExitTable.{Decision, ended, failing}
use oreeai_notetaker.Runner.Exit.{
  wav_path, transcribe_call, transcribe_stored, mark_transcription_failed,
}
use oreeai_notetaker.Runner.Settles.{Ends, failed_with, mark_transcription_failed-Ends}
use oreeai_notetaker.Runner.Conclude.{
  IsSource, IsUntold, no_storage, no_source, no_provider, refused_audio, Concluded, untranscribed,
  finish_done_call-Concluded, processing_active,
}
use oreeai_notetaker.Runner.Contract.{IsTyped, is_source_answer, is_answer, transcribe_answer}

module _ (env : Env) (i : ℕ) (end_reason audio_url : String) (c : Call) where
  fails :
      (detail : String) (w : World)
      → IsUntold env i detail
      → get i w.table ≡ some c
      → c.status ≡ processing
      → Concluded env i end_reason audio_url
          (fate_of c)
          w.scratch
          (mark_transcription_failed env i detail audio_url w)
  fails detail w untold h s =
      untranscribed detail untold
        (mark_transcription_failed-Ends env i detail audio_url w c h (processing_active c.status s))

module _ (env : Env) (typed : IsTyped env) (i : ℕ) (end_reason : String) (c : Call) where
  transcribe_call-Concluded :
      (audio_url : String) (source : AudioSource) (w : World)
      → IsSource env i source
      → get i w.table ≡ some c
      → c.status ≡ processing
      → Concluded env i end_reason audio_url
          (fate_of c)
          w.scratch
          (transcribe_call env i end_reason audio_url source w)
  unfolding transcribe_call
  transcribe_call-Concluded audio_url source w given h s = go env.transcription refl
    where
      w₁ : World
      w₁ = note (provider_called i) w

      answered :
          (client : TranscriptionClient)
          → env.transcription ≡ built client
          → (r : TranscriptionResult Transcript)
          → (transcribe client w.tick source env.settings.audio_max_bytes).result ≡ r
          → is_answer r ≡ true
          → Concluded env i end_reason audio_url
              (fate_of c)
              w.scratch
              (transcribe_call env i end_reason audio_url source w)
      answered client e (transcribed t) found ok =
          simp (e, transcribe_call)
            (rw found (
              finish_done_call-Concluded env i end_reason audio_url t w₁ c h s
                (client, w.tick, source, e, given, found)))
      answered client e (refused x) found ok =
          simp (e, transcribe_call)
            (rw found (
              fails env i end_reason audio_url c (failure_detail x) w₁
                (refused_audio x (client, w.tick, source, e, given, found)) h s))
      answered client e escaped found ok = cc

      go :
          (b : Built TranscriptionClient)
          → env.transcription ≡ b
          → Concluded env i end_reason audio_url
              (fate_of c)
              w.scratch
              (transcribe_call env i end_reason audio_url source w)
      go (misconfigured m) e =
          simp (e, transcribe_call)
            (fails env i end_reason audio_url c ("misconfigured: " <> m) w (no_provider e) h s)
      go (built client) e = answered client e _ refl (
          transcribe_answer client w.tick source env.settings.audio_max_bytes
            (λ at. typed.answers client e at source))

  pub transcribe_stored-Concluded :
      (audio_url : String) (w : World)
      → get i w.table ≡ some c
      → c.status ≡ processing
      → Concluded env i end_reason audio_url
          (fate_of c)
          w.scratch
          (transcribe_stored env i end_reason audio_url w)
  unfolding transcribe_stored
  transcribe_stored-Concluded audio_url w h s = go env.storage refl
    where
      w₁ : World
      w₁ = note (asked_source i) w

      gone :
          (w : World)
          → IsUntold env i "source_unavailable"
          → get i w.table ≡ some c
          → Concluded env i end_reason audio_url
              (fate_of c)
              w.scratch
              (mark_transcription_failed env i "source_unavailable" audio_url w)
      gone w untold h = fails env i end_reason audio_url c "source_unavailable" w untold h s

      answered :
          (client : ObjectStorageClient)
          → env.storage ≡ built client
          → (r : StorageResult AudioSource)
          → client.transcribable_source w.tick i env.settings.s3_presign_ttl_seconds ≡ r
          → is_source_answer r ≡ true
          → Concluded env i end_reason audio_url
              (fate_of c)
              w.scratch
              (transcribe_stored env i end_reason audio_url w)
      answered client e (stored source) found ok =
          simp (e, transcribe_stored)
            (rw found
              (transcribe_call-Concluded audio_url source w₁ (client, w.tick, e, found) h s))
      answered client e (failure other_exception) found ok = cc
      answered client e (failure configuration_error) found ok =
          simp (e, transcribe_stored)
            (rw found (gone w₁ (no_source client w.tick configuration_error e found) h))
      answered client e (failure upload_failed) found ok =
          simp (e, transcribe_stored)
            (rw found (gone w₁ (no_source client w.tick upload_failed e found) h))
      answered client e (failure delete_failed) found ok =
          simp (e, transcribe_stored)
            (rw found (gone w₁ (no_source client w.tick delete_failed e found) h))
      answered client e (failure source_unavailable) found ok =
          simp (e, transcribe_stored)
            (rw found (gone w₁ (no_source client w.tick source_unavailable e found) h))

      go :
          (b : Built ObjectStorageClient)
          → env.storage ≡ b
          → Concluded env i end_reason audio_url
              (fate_of c)
              w.scratch
              (transcribe_stored env i end_reason audio_url w)
      go (misconfigured m) e =
          simp (e, transcribe_stored)
            (fails env i end_reason audio_url c "storage_misconfigured" w (no_storage e) h s)
      go (built client) e =
          answered client e _ refl
            (typed.sources client e w.tick i env.settings.s3_presign_ttl_seconds)

-- The storage took the audio, at this URI.
abbrev pub IsUploaded : Env → ℕ → String → Type 0
IsUploaded env i audio_url =
    (client : ObjectStorageClient) × (at : ℕ) × (env.storage ≡ built client)
    × (client.upload_audio at i (wav_path env i) ≡ stored audio_url)

-- Why the audio was not uploaded.
pub data IsLost (env : Env) (i : ℕ) (wavs : List ℕ) : Type 0 where
  no_wav : contains i wavs ≡ false → IsLost env i wavs
  unconfigured : {m : String} → env.storage ≡ misconfigured m → IsLost env i wavs
  not_taken :
      (client : ObjectStorageClient) (at : ℕ)
      → env.storage ≡ built client
      → client.upload_audio at i (wav_path env i) ≡ failure upload_failed
      → IsLost env i wavs

-- What can become of a call whose bot has exited: it failed with the reason that was decided; its
-- audio was not uploaded, and it failed with `upload_failed`, the scratch WAVs as they were; or its
-- audio was uploaded, and it was concluded.
pub data Settled (env : Env) (i : ℕ) (decision : Decision) (f : Fate) (wavs : List ℕ)
    (out : Outcome (Unit {0}) × World) : Type 0 where
  exit_failed :
      (reason : String)
      → decision ≡ failing reason
      → Ends i (failed_with reason f) wavs out
      → Settled env i decision f wavs out
  audio_not_uploaded :
      (end_reason : String)
      → decision ≡ ended end_reason
      → IsLost env i wavs
      → Ends i (failed_with "upload_failed" f) wavs out
      → Settled env i decision f wavs out
  audio_uploaded :
      (end_reason audio_url : String)
      → decision ≡ ended end_reason
      → contains i wavs ≡ true
      → IsUploaded env i audio_url
      → Concluded env i end_reason audio_url f wavs out
      → Settled env i decision f wavs out
