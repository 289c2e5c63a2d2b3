-- ===== src/Runner/Exit.antt =====
-- src/oreeai_notetaker/workers/bot_runner.py: from a bot's exit to a terminal call. Between two
-- transactions nothing else runs here; what other tasks can do is in Lifecycle/Runs, and what becomes of
-- the rest of the way if another task has finished the call is in Runner/Late.
use oreeai_notetaker.Prelude.{
  ℕ, ℤ, Bool, true, false, [], ◌∷◌, Option, none, some, String, ◌<>◌, str_eq, if◌then◌else◌,
  contains, remove, List,
}
use oreeai_notetaker.Call.{Change, is_terminal, get, update}
use oreeai_notetaker.Errors.{ok, ◌>>=◌ as result_bind}
use oreeai_notetaker.Lifecycle.{mark_failed, mark_processing, mark_done}
use oreeai_notetaker.Storage.{
  AudioSource, stored, failure, upload_failed, other_exception, upload_for_call,
  transcribable_source_for_call,
}
use oreeai_notetaker.Transcription.{
  Transcript, transcribed, refused, escaped, failure_detail, transcribe,
}
use oreeai_notetaker.Transcription.Json.{Fields}
use oreeai_notetaker.World.{
  Env, World, Action, returned, crashed, built, misconfigured, nothing_more, note, Body, transact,
  uploaded, asked_source, provider_called, wav_unlinked, ◌>>=◌,
}
use oreeai_notetaker.Retention.{enforce_retention}
use oreeai_notetaker.Runner.ExitTable.{result_end_reason, Decision, ended, failing, decide_exit}
use oreeai_notetaker.Runner.Dispatch.{dispatch_webhook}

-- `path.unlink()`: a missing file is no error, and after an OSError (`stuck`) the file is still there.
abbrev pub unlinked : Bool → ℕ → List ℕ → List ℕ
unlinked stuck i wavs = if stuck then wavs else remove i wavs

-- `_delete_local_wav`
unfoldable pub delete_local_wav : Env → ℕ → World → World
delete_local_wav env i w =
    note (wav_unlinked i) (record w { scratch = unlinked (env.unlink_fails i) i w.scratch })

abbrev pub dispatch : Env → ℕ → Action (Unit {0})
dispatch env i w = (returned tt, dispatch_webhook env i w)

-- Go on with `k` if the transaction was committed; after the ConflictError return at once.
abbrev pub if_committed : Action Bool → Action (Unit {0}) → Action (Unit {0})
if_committed m k = m >>= λ committed. elim committed [ true ↦ k | false ↦ nothing_more ]

-- `_mark_upload_failed`
unfoldable pub mark_upload_failed : Env → ℕ → Action (Unit {0})
unfolding transact
mark_upload_failed env i =
    if_committed (transact env (λ now. mark_failed now i "upload_failed")) (dispatch env i)

-- The transaction of `_mark_transcription_failed`: the failure, and the audio's URI with it.
unfoldable pub fail_with_audio : ℕ → String → String → Body
fail_with_audio i detail audio_url now t =
    result_bind (mark_failed now i ("transcription_failed:" <> detail) t) λ (r, t').
      elim (get i t') [
        | none ↦ ok (r, t')
        | some c ↦
            if str_eq audio_url ""
            then ok (r, t')
            else ok (r, (update now c none (Change.set_audio_url audio_url ∷ []) t').1)
      ]

-- `_mark_transcription_failed`
unfoldable pub mark_transcription_failed : Env → ℕ → String → String → Action (Unit {0})
unfolding transact fail_with_audio delete_local_wav
mark_transcription_failed env i detail audio_url =
    if_committed (transact env (fail_with_audio i detail audio_url))
      (λ w. dispatch env i (delete_local_wav env i w))

-- `_finish_done_call`
unfoldable pub finish_done_call : Env → ℕ → String → String → Transcript → Action (Unit {0})
unfolding transact delete_local_wav enforce_retention
finish_done_call env i end_reason audio_url transcript =
    if_committed
      (transact env (λ now. mark_done now i end_reason (some transcript.segments) (some audio_url)))
      (λ w.
        let w₁ = dispatch_webhook env i (delete_local_wav env i w) in
        (returned tt, (enforce_retention env w₁).1))

-- `_transcribe_call`, and what follows it
unfoldable pub transcribe_call : Env → ℕ → String → String → AudioSource → Action (Unit {0})
unfolding mark_transcription_failed finish_done_call transcribe
transcribe_call env i end_reason audio_url source w = elim env.transcription [
  | misconfigured m ↦ mark_transcription_failed env i ("misconfigured: " <> m) audio_url w
  | built client ↦
      let attempted = transcribe client w.tick source env.settings.audio_max_bytes in
      let w₁ = note (provider_called i) w in
      elim attempted.result [
        | transcribed t ↦ finish_done_call env i end_reason audio_url t w₁
        | refused e ↦ mark_transcription_failed env i (failure_detail e) audio_url w₁
        | escaped ↦ (crashed, w₁)
      ]
]

-- `_transcribable_source`, and what follows it; every `ObjectStorageError` is caught.
unfoldable pub transcribe_stored : Env → ℕ → String → String → Action (Unit {0})
unfolding mark_transcription_failed transcribe_call
transcribe_stored env i end_reason audio_url w = elim env.storage [
  | misconfigured m ↦ mark_transcription_failed env i "storage_misconfigured" audio_url w
  | built client ↦
      let answer =
        transcribable_source_for_call client env.settings.s3_presign_ttl_seconds w.tick i none in
      let w₁ = note (asked_source i) w in
      elim answer [
        | stored source ↦ transcribe_call env i end_reason audio_url source w₁
        | failure e ↦ elim e [
          | other_exception ↦ (crashed, w₁)
          | _ ↦ mark_transcription_failed env i "source_unavailable" audio_url w₁
        ]
      ]
]

-- The scratch WAV's path.
abbrev pub wav_path : Env → ℕ → String
wav_path env i = env.settings.audio_host_path <> "/" <> env.codec.uuid_text i <> ".wav"

-- `_upload_call_audio`, and what follows it; only `UploadFailed` is caught.
unfoldable pub upload_and_transcribe : Env → ℕ → String → Action (Unit {0})
unfolding mark_upload_failed transcribe_stored
upload_and_transcribe env i end_reason w =
    if contains i w.scratch
    then elim env.storage [
      | misconfigured m ↦ mark_upload_failed env i w
      | built client ↦
          let answer =
            upload_for_call client env.settings.s3_presign_ttl_seconds w.tick i (wav_path env i) in
          let w₁ = note (uploaded i) w in
          elim answer [
            | stored audio_url ↦ transcribe_stored env i end_reason audio_url w₁
            | failure e ↦ elim e [ upload_failed ↦ mark_upload_failed env i w₁ | _ ↦ (crashed, w₁) ]
          ]
    ]
    else mark_upload_failed env i w

-- What `apply_exit_status` does for a call that it has loaded.
unfoldable pub apply_decision : Env → ℕ → Decision → Action (Unit {0})
unfolding transact upload_and_transcribe
apply_decision env i (failing reason) =
    if_committed (transact env (λ now. mark_failed now i reason)) (dispatch env i)
apply_decision env i (ended end_reason) =
    if_committed (transact env (λ now. mark_processing now i))
      (upload_and_transcribe env i end_reason)

unfoldable pub apply_exit_status : Env → ℕ → Option ℤ → Option Fields → Action (Unit {0})
unfolding apply_decision decide_exit result_end_reason
apply_exit_status env i exit_code result w = elim (get i w.table) [
  | none ↦ (returned tt, w)
  | some call ↦
      if is_terminal call.status
      then (returned tt, w)
      else apply_decision env i (decide_exit exit_code (result_end_reason result) call.status) w
]
