-- ===== src/Runner/SafeExit.antt =====
-- The way from a bot's exit, exceptions included, and the lifecycle's diagram
-- (src/oreeai_notetaker/workers/bot_runner.py, workers/retention.py).
use oreeai_notetaker.Prelude.{
  ℕ, ℤ, ◌≡◌, refl, subst, true, [], ◌∷◌, Option, none, some, Option-cases, Bool-cases, inl, inr,
  if◌then◌else◌, String, str_eq, contains, ◌<>◌,
}
use oreeai_notetaker.Call.{processing, done, failed, Change, Table, get, put, updated, is_terminal}
use oreeai_notetaker.Errors.{Result, ok, err}
use oreeai_notetaker.Schema.{CallRead}
use oreeai_notetaker.Lifecycle.{mark_failed, mark_done, mark_processing}
use oreeai_notetaker.Lifecycle.Runs.{after}
use oreeai_notetaker.Storage.{
  AudioSource, ObjectStorageClient, StorageResult, stored, failure, upload_failed, other_exception,
  upload_for_call, transcribable_source_for_call,
}
use oreeai_notetaker.Transcription.{
  Transcript, TranscriptionClient, TranscriptionResult, transcribed, refused, escaped, transcribe,
  failure_detail,
}
use oreeai_notetaker.Transcription.Json.{Fields}
use oreeai_notetaker.Retention.{enforce_retention}
use oreeai_notetaker.World.{Env, Built, built, misconfigured, returned, transact}
use oreeai_notetaker.Runner.Dispatch.{dispatch_webhook}
use oreeai_notetaker.Runner.ExitTable.{Decision, ended, failing, decide_exit, result_end_reason}
use oreeai_notetaker.Runner.Exit.{
  dispatch, delete_local_wav, mark_upload_failed, fail_with_audio, mark_transcription_failed,
  finish_done_call, transcribe_call, transcribe_stored, upload_and_transcribe, apply_decision,
  apply_exit_status, wav_path,
}
use oreeai_notetaker.Runner.SafeRows.{put-Follows, retention-Follows}
use oreeai_notetaker.Runner.Safe.{
  Follows, Follows-refl, Follows-trans, Safe, Leads, transact-Safe, move-Leads, if_committed-Safe,
  dispatch-Safe,
}

module _ (env : Env) (i : ℕ) where
  mark_upload_failed-Safe : Safe (mark_upload_failed env i)
  unfolding mark_upload_failed
  mark_upload_failed-Safe =
      if_committed-Safe (transact env (λ now. mark_failed now i "upload_failed")) (dispatch env i)
        (transact-Safe env (λ now. mark_failed now i "upload_failed")
          (move-Leads i failed (Change.set_failure_reason "upload_failed" ∷ [])))
        (dispatch-Safe env i)

  with_audio-Follows :
      (now : ℕ) (audio_url : String) (u t : Table) (r : CallRead)
      → Follows t (
          after u (elim (get i t) [
            | none ↦ ok (r, t)
            | some c ↦
                if str_eq audio_url ""
                then ok (r, t)
                else ok (r, put (updated now none (Change.set_audio_url audio_url ∷ []) c) t)
          ]))
  with_audio-Follows now audio_url u t r = elim (Option-cases (get i t)) [
    | inl missing ↦ rw missing (Follows-refl t)
    | inr (c, found) ↦ rw found (elim (Bool-cases (str_eq audio_url "")) [
      | inl empty ↦ rw empty (Follows-refl t)
      | inr given ↦ rw given (put-Follows i c _ t found refl refl)
    ])
  ]

  fail_with_audio-Leads : (detail audio_url : String) → Leads (fail_with_audio i detail audio_url)
  unfolding fail_with_audio
  fail_with_audio-Leads detail audio_url now t =
      go (mark_failed now i ("transcription_failed:" <> detail) t) refl
    where
      go :
          (r : Result (CallRead × Table))
          → mark_failed now i ("transcription_failed:" <> detail) t ≡ r
          → Follows t (after t (fail_with_audio i detail audio_url now t))
      go (ok (r, t')) e =
          rw (fail_with_audio, e)
            (Follows-trans t t' _
              (subst (λ r. Follows t (after t r)) e
                (move-Leads i failed
                  (Change.set_failure_reason ("transcription_failed:" <> detail) ∷ []) now t))
              (with_audio-Follows now audio_url t t' r))
      go (err x) e = rw (fail_with_audio, e) (Follows-refl t)

  mark_transcription_failed-Safe :
      (detail audio_url : String) → Safe (mark_transcription_failed env i detail audio_url)
  unfolding mark_transcription_failed delete_local_wav
  mark_transcription_failed-Safe detail audio_url =
      if_committed-Safe (transact env (fail_with_audio i detail audio_url))
        (λ w. dispatch env i (delete_local_wav env i w))
        (transact-Safe env (fail_with_audio i detail audio_url)
          (fail_with_audio-Leads detail audio_url))
        (λ w. dispatch-Safe env i (delete_local_wav env i w))

  finish_done_call-Safe :
      (end_reason audio_url : String) (t : Transcript)
      → Safe (finish_done_call env i end_reason audio_url t)
  unfolding finish_done_call delete_local_wav
  finish_done_call-Safe end_reason audio_url t =
      if_committed-Safe
        (transact env (λ now. mark_done now i end_reason (some t.segments) (some audio_url))) _
        (transact-Safe env (λ now. mark_done now i end_reason (some t.segments) (some audio_url))
          (move-Leads i done _))
        finish
    where
      finish : Safe (λ w. (
        returned tt,
        (enforce_retention env (dispatch_webhook env i (delete_local_wav env i w))).1,
      ))
      finish w =
          Follows-trans w.table (dispatch_webhook env i (delete_local_wav env i w)).table _
            (dispatch-Safe env i (delete_local_wav env i w))
            (retention-Follows env (dispatch_webhook env i (delete_local_wav env i w)))

  module _ (end_reason audio_url : String) where
    transcribe_call-Safe :
        (source : AudioSource) → Safe (transcribe_call env i end_reason audio_url source)
    unfolding transcribe_call
    transcribe_call-Safe source w = go env.transcription refl
      where
        tried :
            (client : TranscriptionClient)
            → env.transcription ≡ built client
            → (r : TranscriptionResult Transcript)
            → (transcribe client w.tick source env.settings.audio_max_bytes).result ≡ r
            → Follows w.table (transcribe_call env i end_reason audio_url source w).1.table
        tried client e (transcribed t) g =
            rw (transcribe_call, e, g) (finish_done_call-Safe end_reason audio_url t _)
        tried client e (refused x) g =
            rw (transcribe_call, e, g)
              (mark_transcription_failed-Safe (failure_detail x) audio_url _)
        tried client e escaped g = rw (transcribe_call, e, g) (Follows-refl w.table)

        go :
            (b : Built TranscriptionClient)
            → env.transcription ≡ b
            → Follows w.table (transcribe_call env i end_reason audio_url source w).1.table
        go (misconfigured m) e =
            rw (transcribe_call, e)
              (mark_transcription_failed-Safe ("misconfigured: " <> m) audio_url w)
        go (built client) e =
            tried client e (transcribe client w.tick source env.settings.audio_max_bytes).result
              refl

    transcribe_stored-Safe : Safe (transcribe_stored env i end_reason audio_url)
    unfolding transcribe_stored
    transcribe_stored-Safe w = go env.storage refl
      where
        after_answer :
            (client : ObjectStorageClient)
            → env.storage ≡ built client
            → (r : StorageResult AudioSource)
            → transcribable_source_for_call client env.settings.s3_presign_ttl_seconds w.tick i none
              ≡ r
            → Follows w.table (transcribe_stored env i end_reason audio_url w).1.table
        after_answer client e (stored source) g =
            rw (transcribe_stored, e, g) (transcribe_call-Safe source _)
        after_answer client e (failure other_exception) g =
            rw (transcribe_stored, e, g) (Follows-refl w.table)
        after_answer client e (failure _) g =
            rw (transcribe_stored, e, g)
              (mark_transcription_failed-Safe "source_unavailable" audio_url _)

        go :
            (b : Built ObjectStorageClient)
            → env.storage ≡ b
            → Follows w.table (transcribe_stored env i end_reason audio_url w).1.table
        go (misconfigured m) e =
            rw (transcribe_stored, e)
              (mark_transcription_failed-Safe "storage_misconfigured" audio_url w)
        go (built client) e =
            after_answer client e
              (transcribable_source_for_call client env.settings.s3_presign_ttl_seconds w.tick i
                none)
              refl

  upload_and_transcribe-Safe : (end_reason : String) → Safe (upload_and_transcribe env i end_reason)
  unfolding upload_and_transcribe
  upload_and_transcribe-Safe end_reason w = elim (Bool-cases (contains i w.scratch)) [
    | inl there ↦ go env.storage refl there
    | inr missing ↦ rw (upload_and_transcribe, missing) (mark_upload_failed-Safe w)
  ]
    where
      after_answer :
          (client : ObjectStorageClient)
          → env.storage ≡ built client
          → (r : StorageResult String)
          → upload_for_call client env.settings.s3_presign_ttl_seconds w.tick i (wav_path env i) ≡ r
          → contains i w.scratch ≡ true
          → Follows w.table (upload_and_transcribe env i end_reason w).1.table
      after_answer client e (stored audio_url) g h =
          rw (upload_and_transcribe, h, e, g) (transcribe_stored-Safe end_reason audio_url _)
      after_answer client e (failure upload_failed) g h =
          rw (upload_and_transcribe, h, e, g) (mark_upload_failed-Safe _)
      after_answer client e (failure _) g h =
          rw (upload_and_transcribe, h, e, g) (Follows-refl w.table)

      go :
          (b : Built ObjectStorageClient)
          → env.storage ≡ b
          → contains i w.scratch ≡ true
          → Follows w.table (upload_and_transcribe env i end_reason w).1.table
      go (misconfigured m) e h = rw (upload_and_transcribe, h, e) (mark_upload_failed-Safe w)
      go (built client) e h =
          after_answer client e
            (upload_for_call client env.settings.s3_presign_ttl_seconds w.tick i (wav_path env i))
            refl h

  apply_decision-Safe : (d : Decision) → Safe (apply_decision env i d)
  unfolding apply_decision
  apply_decision-Safe (failing reason) =
      if_committed-Safe (transact env (λ now. mark_failed now i reason)) (dispatch env i)
        (transact-Safe env (λ now. mark_failed now i reason)
          (move-Leads i failed (Change.set_failure_reason reason ∷ [])))
        (dispatch-Safe env i)
  apply_decision-Safe (ended end_reason) =
      if_committed-Safe (transact env (λ now. mark_processing now i))
        (upload_and_transcribe env i end_reason)
        (transact-Safe env (λ now. mark_processing now i) (move-Leads i processing []))
        (upload_and_transcribe-Safe end_reason)

  pub apply_exit_status-Safe :
      (code : Option ℤ) (result : Option Fields) → Safe (apply_exit_status env i code result)
  unfolding apply_exit_status
  apply_exit_status-Safe code result w = elim (Option-cases (get i w.table)) [
    | inl missing ↦ rw (apply_exit_status, missing) (Follows-refl w.table)
    | inr (c, found) ↦ elim (Bool-cases (is_terminal c.status)) [
      | inl over ↦ rw (apply_exit_status, found, over) (Follows-refl w.table)
      | inr going ↦
          rw (apply_exit_status, found, going)
            (apply_decision-Safe (decide_exit code (result_end_reason result) c.status) w)
    ]
  ]
