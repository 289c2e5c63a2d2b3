-- ===== src/Runner/Conclude.antt =====
-- src/oreeai_notetaker/workers/bot_runner.py: what comes of a call whose bot has exited well, on
-- every path of `_upload_and_transcribe`, `_transcribe_call` and `_finish_done_call`.
use oreeai_notetaker.Prelude.{
  ℕ, ◌≡◌, refl, ◌⊎◌, inl, inr, ◌∙◌, sym, subst, true, List, [], ◌∷◌, none, some, String, arith,
  ◌<>◌, contains, Bool-cases, false,
}
use oreeai_notetaker.Call.{
  CallStatus, done, processing, is_active, Call, Change, Table, get, Fate, fate_of, status_in,
}
use oreeai_notetaker.Storage.{AudioSource, ObjectStorageClient, StorageError, stored, failure}
use oreeai_notetaker.Lifecycle.{legal_transitions, mark_done}
use oreeai_notetaker.Lifecycle.Move.{moved, move_accepted}
use oreeai_notetaker.Transcription.{
  Transcript, TranscriptionClient, TranscriptionError, TranscriptionResult, transcribed, refused,
  failure_detail, transcribe,
}
use oreeai_notetaker.World.{Env, World, Outcome, returned, commit, Built, built, misconfigured}
use oreeai_notetaker.Retention.{enforce_retention, reclaim_all, reclaim, all_expired}
use oreeai_notetaker.Retention.Sweep.{Swept, untouched, cleared, reclaim_all_others}
use oreeai_notetaker.Retention.Window.{enforce_retention-Swept}
use oreeai_notetaker.Runner.Effects.{fate}
use oreeai_notetaker.Runner.Exit.{unlinked, delete_local_wav, finish_done_call}
use oreeai_notetaker.Runner.Settles.{
  Ends, done_with, failed_with_audio, put_self, dispatch-Ends, if_committed_ok,
}

reclaim-scratch :
    (env : Env) (client : ObjectStorageClient) (i : ℕ) (w : World)
    → (reclaim env client i w).1.scratch ≡ w.scratch
unfolding reclaim
reclaim-scratch env client i w = ground arith

reclaim_all-scratch :
    (env : Env) (client : ObjectStorageClient) (is : List ℕ) (n : ℕ) (w : World)
    → (reclaim_all env client is n w).1.scratch ≡ w.scratch
unfolding reclaim_all
reclaim_all-scratch env client [] n w = refl
reclaim_all-scratch env client (i ∷ is) n w =
    reclaim_all-scratch env client is _ (reclaim env client i w).1 ∙ reclaim-scratch env client i w

enforce_retention-scratch :
    (env : Env) (w : World) → (enforce_retention env w).1.scratch ≡ w.scratch
unfolding enforce_retention
enforce_retention-scratch env w = go env.storage refl
  where
    go :
        (b : Built ObjectStorageClient)
        → env.storage ≡ b
        → (enforce_retention env w).1.scratch ≡ w.scratch
    go (misconfigured m) e = rw (e, enforce_retention) refl
    go (built client) e =
        rw (e, enforce_retention)
          (reclaim_all-scratch env client (all_expired env w) 0 (commit w.table w))

Swept-fate :
    (i : ℕ) (t t' : Table) (f : Fate)
    → Swept (get i t) (get i t')
    → fate i t ≡ some f
    → (fate i t' ≡ some f) ⊎ (fate i t' ≡ some (record f { audio_url = none }))
unfolding fate
Swept-fate i t t' f (untouched e) h = inl (ground arith)
Swept-fate i t t' f (cleared c now e e') h = inr (ground arith)

-- The storage gave this source for the call's audio.
abbrev pub IsSource : Env → ℕ → AudioSource → Type 0
IsSource env i source =
    (client : ObjectStorageClient) × (at : ℕ) × (env.storage ≡ built client)
    × (client.transcribable_source at i env.settings.s3_presign_ttl_seconds ≡ stored source)

-- The service came to this answer for the call's audio.
abbrev pub IsHeard : Env → ℕ → TranscriptionResult Transcript → Type 0
IsHeard env i r =
    (client : TranscriptionClient) × (at : ℕ) × (source : AudioSource) × (env.transcription
      ≡ built client)
    × IsSource env i source
    × ((transcribe client at source env.settings.audio_max_bytes).result ≡ r)

-- Why there is no transcript, with the detail that says so.
pub data IsUntold (env : Env) (i : ℕ) : String → Type 0 where
  no_storage : {m : String} → env.storage ≡ misconfigured m → IsUntold env i "storage_misconfigured"
  no_source :
      (client : ObjectStorageClient) (at : ℕ) (e : StorageError)
      → env.storage ≡ built client
      → client.transcribable_source at i env.settings.s3_presign_ttl_seconds ≡ failure e
      → IsUntold env i "source_unavailable"
  no_provider :
      {m : String} → env.transcription ≡ misconfigured m → IsUntold env i ("misconfigured: " <> m)
  refused_audio :
      (e : TranscriptionError) → IsHeard env i (refused e) → IsUntold env i (failure_detail e)

-- What can become of the call `i`, whose fate was `f`, on the way from `processing`: it is done with
-- the transcript that the service answered, and a retention sweep that found it due may have taken its
-- audio's URI; or it failed, for a reason that begins with
-- `transcription_failed:` and says what went wrong, and keeps its audio. The scratch WAV is gone,
-- unless it is stuck.
pub data Concluded (env : Env) (i : ℕ) (end_reason audio_url : String) (f : Fate) (wavs : List ℕ)
    (out : Outcome (Unit {0}) × World) : Type 0 where
  finished :
      (t : Transcript)
      → IsHeard env i (transcribed t)
      → Ends i (done_with end_reason audio_url t f) (unlinked (env.unlink_fails i) i wavs) out
      → Concluded env i end_reason audio_url f wavs out
  swept :
      (t : Transcript) (before : World)
      → IsHeard env i (transcribed t)
      → fate i before.table ≡ some (done_with end_reason audio_url t f)
      → contains i (all_expired env before) ≡ true
      → Ends i
          (record (done_with end_reason audio_url t f) { audio_url = none })
          (unlinked (env.unlink_fails i) i wavs)
          out
      → Concluded env i end_reason audio_url f wavs out
  untranscribed :
      (detail : String)
      → IsUntold env i detail
      → Ends i
          (failed_with_audio ("transcription_failed:" <> detail) audio_url f)
          (unlinked (env.unlink_fails i) i wavs)
          out
      → Concluded env i end_reason audio_url f wavs out

-- A sweep that does not list a call leaves it.
enforce_retention_others :
    (env : Env) (w : World) (i : ℕ)
    → contains i (all_expired env w) ≡ false
    → get i (enforce_retention env w).1.table ≡ get i w.table
unfolding enforce_retention
enforce_retention_others env w i h = go env.storage refl
  where
    go :
        (b : Built ObjectStorageClient)
        → env.storage ≡ b
        → get i (enforce_retention env w).1.table ≡ get i w.table
    go (misconfigured m) e = rw (e, enforce_retention) refl
    go (built client) e =
        rw (e, enforce_retention)
          (reclaim_all_others env client (all_expired env w) 0 (commit w.table w) i h)

swept-Concluded :
    (env : Env) (i : ℕ) (end_reason audio_url : String) (t : Transcript) (f : Fate) (wavs : List ℕ)
    (w : World)
    → IsHeard env i (transcribed t)
    → Ends i
        (done_with end_reason audio_url t f)
        (unlinked (env.unlink_fails i) i wavs)
        (returned tt, w)
    → Concluded env i end_reason audio_url f wavs (returned tt, (enforce_retention env w).1)
unfolding fate
swept-Concluded env i end_reason audio_url t f wavs w heard (_, h, e) =
    elim (Bool-cases (contains i (all_expired env w))) [
      | inr spared ↦ finished t heard (
        refl,
        fate_as w.table (enforce_retention env w).1.table (enforce_retention_others env w i spared)
            h,
        enforce_retention-scratch env w ∙ e,
      )
      | inl due ↦
          elim (Swept-fate i w.table (enforce_retention env w).1.table _
            (enforce_retention-Swept env w i) h) [
              | inl same ↦ finished t heard (refl, same, enforce_retention-scratch env w ∙ e)
              | inr bare ↦ swept t w heard h due (refl, bare, enforce_retention-scratch env w ∙ e)
            ]
    ]
  where
    fate_as :
        (old new : Table) {g : Fate}
        → get i new ≡ get i old
        → fate i old ≡ some g
        → fate i new ≡ some g
    fate_as old new same h = rw (fate, same) h

processing_done : (s : CallStatus) → s ≡ processing → status_in done (legal_transitions s) ≡ true
processing_done s h = ground arith

pub processing_active : (s : CallStatus) → s ≡ processing → is_active s ≡ true
processing_active s h = ground arith

pub finish_done_call-Concluded :
    (env : Env) (i : ℕ) (end_reason audio_url : String) (t : Transcript) (w : World) (c : Call)
    → get i w.table ≡ some c
    → c.status ≡ processing
    → IsHeard env i (transcribed t)
    → Concluded env i end_reason audio_url
        (fate_of c)
        w.scratch
        (finish_done_call env i end_reason audio_url t w)
unfolding finish_done_call
finish_done_call-Concluded env i end_reason audio_url t w c h s heard =
    subst (Concluded env i end_reason audio_url (fate_of c) w.scratch)
      (sym (
        if_committed_ok env (λ now. mark_done now i end_reason (some t.segments) (some audio_url)) _
          w _ _
          (move_accepted (env.func_now w.tick) i done changes w.table c h
            (processing_done c.status s))))
      (swept-Concluded env i end_reason audio_url t (fate_of c) w.scratch _ heard (
        dispatch-Ends env i (delete_local_wav env i (commit _ w)) _
          (put_self i c (moved (env.func_now w.tick) done changes c) w.table h refl)))
  where
    changes : List Change
    changes =
        Change.set_end_reason end_reason
        ∷ Change.set_transcript t.segments
        ∷ Change.set_audio_url audio_url
        ∷ []
