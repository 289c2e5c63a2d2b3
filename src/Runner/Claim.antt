-- ===== src/Runner/Claim.antt =====
-- What a poll comes to (src/oreeai_notetaker/workers/bot_runner.py).
use oreeai_notetaker.Prelude.{
  ℕ, ◌≤◌, ◌<◌, ◌≡◌, refl, ◌⊎◌, ◌∙◌, Bool, true, false, List, [], ◌∷◌, Option, none, some, String,
  ltb, arith, inl, inr, Bool-cases,
}
use oreeai_notetaker.Call.{
  CallStatus, queued, joining, failed, status_in, status_eq_iff, Call, Change, get, put,
  count_active, fate_of,
}
use oreeai_notetaker.Lifecycle.{legal_transitions}
use oreeai_notetaker.Lifecycle.Move.{moved, move_accepted}
use oreeai_notetaker.Retention.Window.{IsKeyed}
use oreeai_notetaker.World.{Env, World, Outcome, returned, commit, note, bot_task_started}
use oreeai_notetaker.Runner.Effects.{fate, fate_found, dispatch_webhook-SameFates}
use oreeai_notetaker.Runner.Settles.{failed_with, put_self}
use oreeai_notetaker.Runner.Poll.{
  is_waiting, next_queued, poll_once, refuse, claim, container_name, audio_disk_ok,
}
use oreeai_notetaker.Runner.Queue.{IsNext, next_queued-IsNext}

-- The row of a call that was claimed.
abbrev pub claimed_row : Env → World → Call → Call
claimed_row env w c =
    moved (env.func_now w.tick) joining
      (Change.set_bot_container_name (container_name env c.id) ∷ []) c

-- What a poll can come to.
pub data Polled (env : Env) (w : World) (out : Outcome Bool × World) : Type 0 where
  idle :
      next_queued (env.locked w.tick) w.table ≡ none
      → out ≡ (returned false, commit w.table w)
      → Polled env w out
  refused :
      (c : Call) (reason : String)
      → next_queued (env.locked w.tick) w.table ≡ some c
      → ((env.settings.call_concurrency_limit < count_active w.table)
          × (reason ≡ "concurrency_limit"))
        ⊎ ((audio_disk_ok (env.disk_free w.tick) ≡ false) × (reason ≡ "disk_full"))
      → out.0 ≡ returned true
      → fate c.id out.1.table ≡ some (failed_with reason (fate_of c))
      → Polled env w out
  claimed :
      (c : Call)
      → next_queued (env.locked w.tick) w.table ≡ some c
      → count_active w.table ≤ env.settings.call_concurrency_limit
      → audio_disk_ok (env.disk_free w.tick) ≡ true
      → out ≡ (
        returned true,
        note (bot_task_started c.id) (commit (put (claimed_row env w c) w.table) w),
      )
      → Polled env w out

waiting_queued : (locked : ℕ → Bool) (c : Call) → is_waiting locked c ≡ true → c.status ≡ queued
waiting_queued locked c h = (status_eq_iff c.status queued).0 (ground arith)

queued_legal :
    (s : CallStatus)
    → s ≡ queued
    → (status_in failed (legal_transitions s) ≡ true)
      × (status_in joining (legal_transitions s) ≡ true)
queued_legal s h = ground arith

module _ (env : Env) (w : World) (c : Call) where
  refuse-fate :
      (reason : String)
      → get c.id w.table ≡ some c
      → c.status ≡ queued
      → ((refuse env c.id reason w).0 ≡ returned true)
        × (fate c.id (refuse env c.id reason w).1.table ≡ some (failed_with reason (fate_of c)))
  unfolding refuse
  refuse-fate reason h s =
      rw
        (
          refuse,
          move_accepted (env.func_now w.tick) c.id failed changes w.table c h
              (queued_legal c.status s).0,
        )
        (
          refl,
          dispatch_webhook-SameFates env c.id (commit (put row w.table) w) c.id
              ∙ fate_found c.id (put row w.table) row (put_self c.id c row w.table h refl),
        )
    where
      changes : List Change
      changes = Change.set_failure_reason reason ∷ []

      row : Call
      row = moved (env.func_now w.tick) failed changes c

  claim_lem :
      get c.id w.table ≡ some c
      → c.status ≡ queued
      → claim env c.id w ≡ (
        returned true,
        note (bot_task_started c.id) (commit (put (claimed_row env w c) w.table) w),
      )
  unfolding claim
  claim_lem h s =
      rw
        (
          claim,
          move_accepted (env.func_now w.tick) c.id joining
              (Change.set_bot_container_name (container_name env c.id) ∷ []) w.table c h
              (queued_legal c.status s).1,
        )
        refl

-- A poll never raises. It finds no call that waits and changes nothing; or the first one is refused and
-- fails with `concurrency_limit`, if more calls are active than the limit allows, or with `disk_full`;
-- or, within the limit and with room on the disk, the first one alone is written, it is `joining` with
-- its container's name, and its task starts.
pub poll_once-Polled : (env : Env) (w : World) → IsKeyed w.table → Polled env w (poll_once env w)
unfolding poll_once
poll_once-Polled env w k =
    go (next_queued (env.locked w.tick) w.table) refl
      (next_queued-IsNext (env.locked w.tick) w.table k)
  where
    take :
        (c : Call)
        → next_queued (env.locked w.tick) w.table ≡ some c
        → get c.id w.table ≡ some c
        → c.status ≡ queued
        → Polled env w (poll_once env w)
    take c found h s =
        elim (Bool-cases (ltb env.settings.call_concurrency_limit (count_active w.table))) [
          | inl over ↦
              let (returns, fails) = refuse-fate env w c "concurrency_limit" h s in
              refused c "concurrency_limit" found (inl (ground arith, refl))
                (rw (poll_once, found, over) returns) (rw (poll_once, found, over) fails)
          | inr room ↦ elim (Bool-cases (audio_disk_ok (env.disk_free w.tick))) [
            | inl fits ↦
                claimed c found (ground arith) fits
                  (rw (poll_once, found, room, fits) (claim_lem env w c h s))
            | inr full ↦
                let (returns, fails) = refuse-fate env w c "disk_full" h s in
                refused c "disk_full" found (inr (full, refl))
                  (rw (poll_once, found, room, full) returns)
                  (rw (poll_once, found, room, full) fails)
          ]
        ]

    go :
        (o : Option Call)
        → next_queued (env.locked w.tick) w.table ≡ o
        → IsNext (env.locked w.tick) w.table o
        → Polled env w (poll_once env w)
    go none found h = idle found (rw (poll_once, found) refl)
    go (some c) found (h, waits, least) =
        take c found h (waiting_queued (env.locked w.tick) c waits)
