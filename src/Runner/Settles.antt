-- ===== src/Runner/Settles.antt =====
-- What the runner's transactions, each with the dispatch that follows it, make of a call
-- (src/oreeai_notetaker/workers/bot_runner.py).
use oreeai_notetaker.Prelude.{
  ℕ, ◌≡◌, refl, inl, inr, ◌∙◌, sym, ap, subst, Bool, true, List, [], ◌∷◌, none, some, String, arith,
  Bool-cases, ◌<>◌, str_eq, if◌then◌else◌,
}
use oreeai_notetaker.Call.{
  CallStatus, failed, done, is_active, status_in, Call, Change, Table, get, put, updated, Fate,
  fate_of, get-id, get-put_self,
}
use oreeai_notetaker.Errors.{ok}
use oreeai_notetaker.Schema.{CallRead, model_validate}
use oreeai_notetaker.Lifecycle.{legal_transitions, move, mark_failed}
use oreeai_notetaker.Lifecycle.Move.{moved, move_accepted}
use oreeai_notetaker.Transcription.{Transcript}
use oreeai_notetaker.World.{Env, World, Outcome, returned, commit, transact, Action, Body}
use oreeai_notetaker.Runner.Dispatch.{dispatch_webhook, deliver_loaded}
use oreeai_notetaker.Runner.Effects.{fate, fate_found, dispatch_webhook-SameFates}
use oreeai_notetaker.Runner.Exit.{
  dispatch, if_committed, unlinked, delete_local_wav, fail_with_audio, mark_transcription_failed,
}

-- It failed, for this reason.
abbrev pub failed_with : String → Fate → Fate
failed_with reason f = record f { status = failed; failure_reason = some reason }

-- The fate of a call whose audio was uploaded and whose transcription failed.
abbrev pub failed_with_audio : String → String → Fate → Fate
failed_with_audio reason audio_url f =
    if str_eq audio_url ""
    then failed_with reason f
    else record (failed_with reason f) { audio_url = some audio_url }

-- It is done, with its transcript.
abbrev pub done_with : String → String → Transcript → Fate → Fate
done_with end_reason audio_url t f = record f {
  status = done;
  end_reason = some end_reason;
  audio_url = some audio_url;
  transcript = some t.segments;
}

-- The action returned, the call `i` has this fate, and these scratch WAVs are left.
abbrev pub Ends : ℕ → Fate → List ℕ → Outcome (Unit {0}) × World → Type 0
Ends i f wavs (r, w) = (r ≡ returned tt) × (fate i w.table ≡ some f) × (w.scratch ≡ wavs)

pub active_legal :
    (s : CallStatus) → is_active s ≡ true → status_in failed (legal_transitions s) ≡ true
active_legal s h = ground arith

dispatch_webhook-scratch :
    (env : Env) (i : ℕ) (w : World) → (dispatch_webhook env i w).scratch ≡ w.scratch
unfolding dispatch_webhook deliver_loaded
dispatch_webhook-scratch env i w = ground arith

if_committed-true :
    (m : Action Bool) (k : Action (Unit {0})) (w w₁ : World)
    → m w ≡ (returned true, w₁)
    → if_committed m k w ≡ k w₁
if_committed-true m k w w₁ h = ap (λ p. if_committed (λ _. p) k w) h

-- A dispatch after a commit.
pub dispatch-Ends :
    (env : Env) (i : ℕ) (w : World) (c : Call)
    → get i w.table ≡ some c
    → Ends i (fate_of c) w.scratch (dispatch env i w)
dispatch-Ends env i w c h = (
  refl,
  dispatch_webhook-SameFates env i w i ∙ fate_found i w.table c h,
  dispatch_webhook-scratch env i w,
)

-- Any transaction that commits, and then goes on.
pub if_committed_ok :
    (env : Env) (body : Body) (k : Action (Unit {0})) (w : World) (r : CallRead) (t : Table)
    → body (env.func_now w.tick) w.table ≡ ok (r, t)
    → if_committed (transact env body) k w ≡ k (commit t w)
unfolding transact
if_committed_ok env body k w r t h =
    if_committed-true (transact env body) k w (commit t w) (ground (arith, h))

pub committed_Ends :
    (env : Env) (i : ℕ) (body : Body) (k : Action (Unit {0})) (w : World) (r : CallRead) (t : Table)
    (f : Fate) (wavs : List ℕ)
    → body (env.func_now w.tick) w.table ≡ ok (r, t)
    → Ends i f wavs (k (commit t w))
    → Ends i f wavs (if_committed (transact env body) k w)
committed_Ends env i body k w r t f wavs h ends =
    subst (Ends i f wavs) (sym (if_committed_ok env body k w r t h)) ends

pub put_self :
    (i : ℕ) (c c' : Call) (t : Table) → get i t ≡ some c → c'.id ≡ c.id → get i (put c' t) ≡ some c'
put_self i c c' t h e =
    subst (λ k. get k (put c' t) ≡ some c') same
      (get-put_self c' t {old = c} (subst (λ k. get k t ≡ some c) (sym same) h))
  where
    same : c'.id ≡ i
    same = e ∙ get-id i t h

-- A failure that is committed, and then dispatched.
pub fail_and_dispatch :
    (env : Env) (i : ℕ) (reason : String) (w : World) (c : Call)
    → get i w.table ≡ some c
    → is_active c.status ≡ true
    → Ends i
        (failed_with reason (fate_of c))
        w.scratch
        (if_committed (transact env (λ now. mark_failed now i reason)) (dispatch env i) w)
fail_and_dispatch env i reason w c h active =
    committed_Ends env i (λ now. mark_failed now i reason) (dispatch env i) w _ _ _ _
      (move_accepted now i failed changes w.table c h (active_legal c.status active))
      (dispatch-Ends env i _ _ (put_self i c (moved now failed changes c) w.table h refl))
  where
    changes : List Change
    changes = Change.set_failure_reason reason ∷ []

    now : ℕ
    now = env.func_now w.tick

-- The row that `fail_with_audio` leaves.
audio_row : ℕ → String → String → Call → Call
audio_row now detail audio_url c =
    let c₁ =
      moved now failed (Change.set_failure_reason ("transcription_failed:" <> detail) ∷ []) c in
    if str_eq audio_url "" then c₁ else updated now none (Change.set_audio_url audio_url ∷ []) c₁

fail_with_audio_accepted :
    (now i : ℕ) (detail audio_url : String) (t : Table) (c : Call)
    → get i t ≡ some c
    → is_active c.status ≡ true
    → (r : CallRead) × (t' : Table) × (fail_with_audio i detail audio_url now t ≡ ok (r, t'))
      × (get i t' ≡ some (audio_row now detail audio_url c))
unfolding fail_with_audio audio_row
fail_with_audio_accepted now i detail audio_url t c h active =
    elim (Bool-cases (str_eq audio_url "")) [
      | inl empty ↦
          (model_validate c₁, put c₁ t, ground (arith, moves, there), ground (arith, there))
      | inr nonempty ↦ (
        model_validate c₁,
        put c₂ (put c₁ t),
        ground (arith, moves, there),
        ground (arith, put_self i c₁ c₂ (put c₁ t) there refl),
      )
    ]
  where
    changes : List Change
    changes = Change.set_failure_reason ("transcription_failed:" <> detail) ∷ []

    c₁ : Call
    c₁ = moved now failed changes c

    c₂ : Call
    c₂ = updated now none (Change.set_audio_url audio_url ∷ []) c₁

    moves : move now i failed changes t ≡ ok (model_validate c₁, put c₁ t)
    moves = move_accepted now i failed changes t c h (active_legal c.status active)

    there : get i (put c₁ t) ≡ some c₁
    there = put_self i c c₁ t h refl

audio_row-fate :
    (now : ℕ) (detail audio_url : String) (c : Call)
    → fate_of (audio_row now detail audio_url c)
      ≡ failed_with_audio ("transcription_failed:" <> detail) audio_url (fate_of c)
unfolding audio_row
audio_row-fate now detail audio_url c = ground arith

-- `mark_transcription_failed`
pub mark_transcription_failed-Ends :
    (env : Env) (i : ℕ) (detail audio_url : String) (w : World) (c : Call)
    → get i w.table ≡ some c
    → is_active c.status ≡ true
    → Ends i
        (failed_with_audio ("transcription_failed:" <> detail) audio_url (fate_of c))
        (unlinked (env.unlink_fails i) i w.scratch)
        (mark_transcription_failed env i detail audio_url w)
unfolding mark_transcription_failed
mark_transcription_failed-Ends env i detail audio_url w c h active =
    let (r, t, e, there) =
      fail_with_audio_accepted (env.func_now w.tick) i detail audio_url w.table c h active in
    committed_Ends env i (fail_with_audio i detail audio_url) _ w r t _ _ e (
      subst
        (λ f.
          Ends i f (unlinked (env.unlink_fails i) i w.scratch)
            (dispatch env i (delete_local_wav env i (commit t w))))
        (audio_row-fate (env.func_now w.tick) detail audio_url c)
        (dispatch-Ends env i (delete_local_wav env i (commit t w)) _ there))
