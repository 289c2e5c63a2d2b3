-- ===== src/Runner/Ending.antt =====
-- src/oreeai_notetaker/workers/bot_runner.py: every exit of a bot, from `apply_exit_status` on.
use oreeai_notetaker.Prelude.{
  ℕ, ℤ, ◌≡◌, refl, inl, inr, sym, subst, Bool, true, false, List, [], Option, some, String, arith,
  Bool-cases, contains, ◌<>◌,
}
use oreeai_notetaker.Call.{
  CallStatus, processing, recording, is_terminal, is_active, status_in, status_eq, status_eq_iff,
  Call, get, Fate, fate_of,
}
use oreeai_notetaker.Storage.{ObjectStorageClient, StorageResult, stored, failure, upload_failed}
use oreeai_notetaker.Lifecycle.{mark_processing, legal_transitions}
use oreeai_notetaker.Lifecycle.Move.{moved, move_accepted}
use oreeai_notetaker.Transcription.Json.{Fields}
use oreeai_notetaker.World.{
  Env, World, Outcome, returned, commit, Built, built, misconfigured, note, uploaded,
}
use oreeai_notetaker.Runner.ExitTable.{Decision, ended, failing, decide_exit, result_end_reason}
use oreeai_notetaker.Runner.Effects.{fate, fate_found}
use oreeai_notetaker.Runner.Exit.{
  upload_and_transcribe, mark_upload_failed, apply_decision, apply_exit_status, wav_path,
}
use oreeai_notetaker.Runner.Settles.{
  Ends, failed_with, failed_with_audio, fail_and_dispatch, put_self, if_committed_ok,
}
use oreeai_notetaker.Runner.Conclude.{Concluded, finished, swept, untranscribed, processing_active}
use oreeai_notetaker.Runner.Contract.{IsTyped, is_upload_answer}
use oreeai_notetaker.Runner.Typed.{
  transcribe_stored-Concluded, Settled, IsLost, no_wav, unconfigured, not_taken, exit_failed,
  audio_not_uploaded, audio_uploaded,
}

Concluded-status :
    {env : Env} {i : ℕ} {end_reason audio_url : String} {wavs : List ℕ}
    {out : Outcome (Unit {0}) × World} (f : Fate) (s : CallStatus)
    → Concluded env i end_reason audio_url (record f { status = s }) wavs out
    → Concluded env i end_reason audio_url f wavs out
Concluded-status f s (finished t heard e) = finished t heard e
Concluded-status f s (swept t w heard b due e) = swept t w heard b due e
Concluded-status f s (untranscribed d u e) = untranscribed d u e

module _ (env : Env) (typed : IsTyped env) (i : ℕ) (end_reason : String) (f : Fate) (c : Call) where
  upload_and_transcribe-Settled :
      (w : World)
      → get i w.table ≡ some c
      → c.status ≡ processing
      → fate_of c ≡ record f { status = processing }
      → Settled env i (ended end_reason) f w.scratch (upload_and_transcribe env i end_reason w)
  unfolding upload_and_transcribe mark_upload_failed
  upload_and_transcribe-Settled w h s same = go (contains i w.scratch) refl env.storage refl
    where
      w₁ : World
      w₁ = note (uploaded i) w

      lost :
          (w' : World)
          → IsLost env i w.scratch
          → w'.scratch ≡ w.scratch
          → get i w'.table ≡ some c
          → Settled env i (ended end_reason) f w.scratch (mark_upload_failed env i w')
      lost w' why kept h = audio_not_uploaded end_reason refl why (
          subst
            (λ g. Ends i (failed_with "upload_failed" g) w.scratch (mark_upload_failed env i w'))
            same
            (subst
              (λ wavs.
                Ends i (failed_with "upload_failed" (fate_of c)) wavs (mark_upload_failed env i w'))
              kept (fail_and_dispatch env i "upload_failed" w' c h (processing_active c.status s))))

      answered :
          (client : ObjectStorageClient)
          → env.storage ≡ built client
          → contains i w.scratch ≡ true
          → (r : StorageResult String) → client.upload_audio w.tick i (wav_path env i) ≡ r
          → is_upload_answer r ≡ true
          → Settled env i (ended end_reason) f w.scratch (upload_and_transcribe env i end_reason w)
      answered client e present (stored audio_url) found ok =
          audio_uploaded end_reason audio_url refl present (client, w.tick, e, found)
            (Concluded-status f processing (
              subst
                (λ g.
                  Concluded env i end_reason audio_url g w.scratch
                    (upload_and_transcribe env i end_reason w))
                same
                (simp (upload_and_transcribe, present, e)
                  (rw found
                    (transcribe_stored-Concluded env typed i end_reason c audio_url w₁ h s)))))
      answered client e present (failure upload_failed) found ok =
          simp (upload_and_transcribe, present, e)
            (rw found (lost w₁ (not_taken client w.tick e found) refl h))
      answered client e present (failure _) found ok = cc

      go :
          (b : Bool)
          → contains i w.scratch ≡ b
          → (s : Built ObjectStorageClient) → env.storage ≡ s
          → Settled env i (ended end_reason) f w.scratch (upload_and_transcribe env i end_reason w)
      go true present (built client) e =
          answered client e present _ refl (typed.uploads client e w.tick i (wav_path env i))
      go true present (misconfigured m) e =
          simp (upload_and_transcribe, present, e) (lost w (unconfigured e) refl h)
      go false absent b e = rw (upload_and_transcribe, absent) (lost w (no_wav absent) refl h)

recording_processing :
    (s : CallStatus) → s ≡ recording → status_in processing (legal_transitions s) ≡ true
recording_processing s h = ground arith

-- The decision is carried out; an exit counts as a good one only for a call that is recorded.
apply_decision-Settled :
    (env : Env) (typed : IsTyped env) (i : ℕ) (c : Call) (w : World) (d : Decision)
    → get i w.table ≡ some c
    → is_active c.status ≡ true
    → ((r : String) → d ≡ ended r → c.status ≡ recording)
    → Settled env i d (fate_of c) w.scratch (apply_decision env i d w)
unfolding apply_decision
apply_decision-Settled env typed i c w (failing reason) h active good =
    exit_failed reason refl (fail_and_dispatch env i reason w c h active)
apply_decision-Settled env typed i c w (ended r) h active good =
    subst (Settled env i (ended r) (fate_of c) w.scratch)
      (sym (
        if_committed_ok env (λ now. mark_processing now i) _ w _ _
          (move_accepted now i processing [] w.table c h
            (recording_processing c.status (good r refl)))))
      (upload_and_transcribe-Settled env typed i r (fate_of c) (moved now processing [] c)
        (commit _ w) (put_self i c (moved now processing [] c) w.table h refl) refl refl)
  where
    now : ℕ
    now = env.func_now w.tick

decide_exit_recording :
    (code : Option ℤ) (e : Option String) (s : CallStatus) (r : String)
    → decide_exit code e s ≡ ended r
    → s ≡ recording
unfolding decide_exit
decide_exit_recording code e s r h = elim (Bool-cases (status_eq s recording)) [
  | inl same ↦ (status_eq_iff s recording).0 same
  | inr other ↦ ground (arith, other)
]

-- If the adapters raise nothing but the errors of their contracts, and nothing else runs between the
-- transactions (such as a stale sweep during a slow transcription), then the exit of an active call's
-- bot ends in one of five ways, with the runner's task over. The call failed for the reason that was
-- decided, the scratch WAVs as they were. Or it failed for `upload_failed`, the WAVs as they were, and
-- its WAV was not there, or the storage is misconfigured or did not take it. Or the storage took the
-- audio at a URI, the scratch WAV is gone unless the disk refuses to unlink it, and either the call is
-- done with the end reason that was decided, that URI, and the transcript that the service answered for
-- the source that the storage gave; or it is so, but a sweep to which it was due has just taken the
-- URI; or it failed with `transcription_failed:` and the detail of what the storage or the service
-- answered, and has the URI if that is not empty.
pub apply_exit_status-Settled :
    (env : Env) (i : ℕ) (code : Option ℤ) (result : Option Fields) (w : World) (c : Call)
    → IsTyped env
    → get i w.table ≡ some c
    → is_active c.status ≡ true
    → Settled env i
        (decide_exit code (result_end_reason result) c.status)
        (fate_of c)
        w.scratch
        (apply_exit_status env i code result w)
unfolding apply_exit_status
apply_exit_status-Settled env i code result w c typed h active =
    rw (apply_exit_status, h, active_only c.status active)
      (apply_decision-Settled env typed i c w (decide_exit code (result_end_reason result) c.status)
        h active (decide_exit_recording code (result_end_reason result) c.status))
  where
    active_only : (s : CallStatus) → is_active s ≡ true → is_terminal s ≡ false
    active_only s h = ground arith

-- A call that is settled is terminal, with the action over.
Settled-is_terminal :
    (env : Env) (i : ℕ) (d : Decision) (f : Fate) (wavs : List ℕ) (out : Outcome (Unit {0}) × World)
    → Settled env i d f wavs out
    → (out.0 ≡ returned tt)
      × (g : Fate) × (fate i out.1.table ≡ some g)
      × (is_terminal g.status ≡ true)
Settled-is_terminal env i d f wavs out (exit_failed reason e (over, here, kept)) =
    (over, _, here, refl)
Settled-is_terminal env i d f wavs out (audio_not_uploaded r e why (over, here, kept)) =
    (over, _, here, refl)
Settled-is_terminal env i d f wavs out
      (audio_uploaded r u e p up (finished t heard (over, here, kept))) =
    (over, _, here, refl)
Settled-is_terminal env i d f wavs out
      (audio_uploaded r u e p up (swept t before heard b due (over, here, kept))) =
    (over, _, here, refl)
Settled-is_terminal env i d f wavs out
      (audio_uploaded r u e p up (untranscribed x why (over, here, kept))) =
    (over, _, here, audio_terminal ("transcription_failed:" <> x) u f)
  where
    audio_terminal : (m u : String) (f : Fate) → is_terminal (failed_with_audio m u f).status ≡ true
    audio_terminal m u f = ground arith

-- No call is stranded: whatever the bot's exit code and result line were, after `apply_exit_status` the
-- runner's task has returned and the call is done or failed, if the adapters raise nothing but the
-- errors of their contracts and no other task acts on the call between its transactions.
pub apply_exit_status_terminal :
    (env : Env) (i : ℕ) (code : Option ℤ) (result : Option Fields) (w : World) (c : Call)
    → IsTyped env
    → get i w.table ≡ some c
    → let (r, w') = apply_exit_status env i code result w in
      (r ≡ returned tt) × (f : Fate) × (fate i w'.table ≡ some f) × (is_terminal f.status ≡ true)
unfolding apply_exit_status
apply_exit_status_terminal env i code result w c typed h =
    elim (Bool-cases (is_terminal c.status)) [
      | inl over ↦ rw (apply_exit_status, h, over) (refl, fate_of c, fate_found i w.table c h, over)
      | inr going ↦
          Settled-is_terminal env i _ (fate_of c) w.scratch _
            (apply_exit_status-Settled env i code result w c typed h (active_if c.status going))
    ]
  where
    active_if : (s : CallStatus) → is_terminal s ≡ false → is_active s ≡ true
    active_if s h = ground arith
