-- ===== src/Runner/SafeSweeps.antt =====
-- The sweeps, exceptions included, and the lifecycle's diagram
-- (src/oreeai_notetaker/workers/bot_runner.py).
use oreeai_notetaker.Prelude.{
  ℕ, ◌≡◌, refl, Bool, true, false, List, [], ◌∷◌, Option, none, some, String, Option-cases,
  Bool-cases, inl, inr, if◌then◌else◌, strip, splitlines, after_prefix,
}
use oreeai_notetaker.Call.{failed, Change, get, is_terminal}
use oreeai_notetaker.Lifecycle.{mark_failed}
use oreeai_notetaker.World.{Env, Action, nothing_more, commit, transact, ◌>>◌}
use oreeai_notetaker.Runner.Exit.{dispatch}
use oreeai_notetaker.Runner.Poll.{container_name}
use oreeai_notetaker.Runner.Host.{Host, Subprocess, run_docker, docker_do}
use oreeai_notetaker.Runner.Sweeps.{
  container_prefix, is_zero, ps_args, reap, fail_stale, for_each, stale_ids, stale_sweep_inner,
  stale_sweep, fail_orphan, sweep_call, sweep_container, orphan_sweep,
}
use oreeai_notetaker.Runner.Safe.{
  Follows, Follows-refl, Safe, bind-Safe, nothing-Safe, if-Safe, dispatch-Safe, transact-Safe,
  move-Leads, if_committed-Safe,
}
use oreeai_notetaker.Runner.Swept.{fail_call}

fail_call-Safe : (env : Env) (reason : String) (i : ℕ) → Safe (fail_call env reason i)
fail_call-Safe env reason i =
    if_committed-Safe (transact env (λ now. mark_failed now i reason)) (dispatch env i)
      (transact-Safe env (λ now. mark_failed now i reason)
        (move-Leads i failed (Change.set_failure_reason reason ∷ [])))
      (dispatch-Safe env i)

module _ (host : Host) where
  run_docker-Safe : (args : List String) → Safe (run_docker host args)
  unfolding run_docker
  run_docker-Safe args w = go (host.docker w.tick args) refl
    where
      go :
          (s : Subprocess)
          → host.docker w.tick args ≡ s
          → Follows w.table (run_docker host args w).1.table
      go Subprocess.not_started e = rw (run_docker, e) (Follows-refl w.table)
      go (Subprocess.exited code out_text err_text) e = rw (run_docker, e) (Follows-refl w.table)

  docker_do-Safe : (args : List String) → Safe (docker_do host args)
  docker_do-Safe args =
      bind-Safe (run_docker host args) (λ _. nothing_more) (run_docker-Safe args)
        (λ a. nothing-Safe)

  reap-Safe : (name : String) → Safe (reap host name)
  unfolding reap
  reap-Safe name =
      bind-Safe (docker_do host ("kill" ∷ name ∷ []))
        (λ _. docker_do host ("rm" ∷ "-f" ∷ name ∷ [])) (docker_do-Safe ("kill" ∷ name ∷ []))
        (λ a. docker_do-Safe ("rm" ∷ "-f" ∷ name ∷ []))

for_each-Safe :
    {A : Type 0} (f : A → Action (Unit {0})) (xs : List A)
    → ((x : A) → Safe (f x))
    → Safe (for_each f xs)
unfolding for_each
for_each-Safe f [] h = nothing-Safe
for_each-Safe f (x ∷ xs) h = bind-Safe (f x) (λ _. for_each f xs) (h x) (λ a. for_each-Safe f xs h)

module _ (env : Env) (host : Host) where
  pub stale_sweep-Safe : Safe (stale_sweep env host)
  unfolding stale_sweep stale_sweep_inner fail_stale
  stale_sweep-Safe w =
      for_each-Safe (fail_stale env host) (stale_ids env.settings (env.wall_clock w.tick) w.table)
        (λ i.
          bind-Safe (reap host (container_name env i)) (λ _. fail_call env "stale_call" i)
            (reap-Safe host (container_name env i)) (λ a. fail_call-Safe env "stale_call" i))
        (commit w.table w)

  fail_orphan-Safe : (i : ℕ) → Safe (fail_orphan env i)
  unfolding fail_orphan
  fail_orphan-Safe i w = elim (Option-cases (get i w.table)) [
    | inl missing ↦ rw (fail_orphan, missing) (Follows-refl w.table)
    | inr (c, found) ↦ elim (Bool-cases (is_terminal c.status)) [
      | inl over ↦ rw (fail_orphan, found, over) (Follows-refl w.table)
      | inr going ↦
          rw (fail_orphan, found, going)
            (transact-Safe env (λ now. mark_failed now i "worker_restart")
              (move-Leads i failed (Change.set_failure_reason "worker_restart" ∷ [])) w)
    ]
  ]

  sweep_call-Safe : (name : String) (i : ℕ) → Safe (sweep_call env host name i)
  unfolding sweep_call
  sweep_call-Safe name i =
      bind-Safe (fail_orphan env i) (λ b. reap host name >> rest b) (fail_orphan-Safe i)
        (λ b. bind-Safe (reap host name) (λ _. rest b) (reap-Safe host name) (λ a. rest-Safe b))
    where
      rest : Bool → Action (Unit {0})
      rest b = elim b [ true ↦ dispatch env i | false ↦ nothing_more ]

      rest-Safe : (b : Bool) → Safe (rest b)
      rest-Safe true = dispatch-Safe env i
      rest-Safe false = nothing-Safe

  sweep_container-Safe : (line : String) → Safe (sweep_container env host line)
  unfolding sweep_container
  sweep_container-Safe line w = go (after_prefix container_prefix (strip line)) refl
    where
      named :
          (raw : String) (o : Option ℕ)
          → after_prefix container_prefix (strip line) ≡ some raw
          → host.uuid_of raw ≡ o
          → Follows w.table (sweep_container env host line w).1.table
      named raw none e g =
          rw (sweep_container, e, g) (docker_do-Safe host ("rm" ∷ "-f" ∷ strip line ∷ []) w)
      named raw (some i) e g = rw (sweep_container, e, g) (sweep_call-Safe (strip line) i w)

      go :
          (o : Option String)
          → after_prefix container_prefix (strip line) ≡ o
          → Follows w.table (sweep_container env host line w).1.table
      go none e = rw (sweep_container, e) (Follows-refl w.table)
      go (some raw) e = named raw (host.uuid_of raw) e refl

  pub orphan_sweep-Safe : Safe (orphan_sweep env host)
  unfolding orphan_sweep
  orphan_sweep-Safe =
      bind-Safe (run_docker host ps_args)
        (λ l.
          if is_zero l.returncode
          then for_each (sweep_container env host) (splitlines l.stdout)
          else nothing_more)
        (run_docker-Safe host ps_args)
        (λ l.
          if-Safe (is_zero l.returncode) (for_each (sweep_container env host) (splitlines l.stdout))
            nothing_more
            (for_each-Safe (sweep_container env host) (splitlines l.stdout) sweep_container-Safe)
            nothing-Safe)
