-- ===== src/Runner/Refinement.antt =====
-- The whole worker against the lifecycle's diagram (README.md, Call lifecycle;
-- src/oreeai_notetaker/workers/bot_runner.py).
use oreeai_notetaker.Prelude.{ℕ, ◌≡◌, Bool, List, [], ◌∷◌, some, leb}
use oreeai_notetaker.Call.{Fate}
use oreeai_notetaker.Lifecycle.Runs.{step-Changed}
use oreeai_notetaker.Lifecycle.History.{StatusPath}
use oreeai_notetaker.World.{Env, World, Action, nothing_more, pure, ◌>>=◌, ◌>>◌}
use oreeai_notetaker.Runner.Effects.{fate}
use oreeai_notetaker.Runner.Poll.{poll_once}
use oreeai_notetaker.Runner.Host.{Host}
use oreeai_notetaker.Runner.Sweeps.{stale_sweep}
use oreeai_notetaker.Runner.Safe.{
  Follows, Follows-refl, Follows-trans, Changed-Follows, Safe, bind-Safe, nothing-Safe, if-Safe,
}
use oreeai_notetaker.Runner.SafeRows.{retention-Follows}
use oreeai_notetaker.Runner.SafeSweeps.{stale_sweep-Safe, orphan_sweep-Safe}
use oreeai_notetaker.Runner.SafeTasks.{poll_once-Safe, run_call-Safe}
use oreeai_notetaker.Runner.Main.{
  Timers, heartbeat, run_retention_sweep, due, rearmed, heartbeat_interval, stale_sweep_interval,
  retention_interval, main_round, Activity, starts, round_at, call_task, request, perform_activity,
  perform_all,
}

module _ (env : Env) (host : Host) where
  due-Safe : (b : Bool) (m : Action (Unit {0})) → Safe m → Safe (due b m)
  due-Safe b m h = if-Safe b m nothing_more h nothing-Safe

  heartbeat-Safe : Safe (heartbeat env)
  unfolding heartbeat
  heartbeat-Safe w = Follows-refl w.table

  run_retention_sweep-Safe : Safe (run_retention_sweep env)
  unfolding run_retention_sweep
  run_retention_sweep-Safe w = retention-Follows env w

  main_round-Safe : (now : ℕ) (t : Timers) → Safe (main_round env host now t)
  unfolding main_round
  main_round-Safe now t =
      bind-Safe (due (leb t.next_heartbeat now) (heartbeat env)) (λ _. after_heartbeat)
        (due-Safe _ (heartbeat env) heartbeat-Safe)
        λ a.
          bind-Safe (due (leb t.next_stale_sweep now) (stale_sweep env host))
            (λ _. after_stale_sweep) (due-Safe _ (stale_sweep env host) (stale_sweep-Safe env host))
            λ b.
              bind-Safe (due (leb t.next_retention now) (run_retention_sweep env)) (λ _. polled)
                (due-Safe _ (run_retention_sweep env) run_retention_sweep-Safe)
                λ c.
                  bind-Safe (poll_once env) (λ claimed. pure rearmed_timers) (poll_once-Safe env)
                    (λ claimed w. Follows-refl w.table)
    where
      rearmed_timers : Timers
      rearmed_timers = record {
        next_heartbeat = rearmed now heartbeat_interval t.next_heartbeat;
        next_stale_sweep = rearmed now stale_sweep_interval t.next_stale_sweep;
        next_retention = rearmed now retention_interval t.next_retention;
      }

      polled : Action Timers
      polled = poll_once env >>= λ claimed. pure rearmed_timers

      after_stale_sweep : Action Timers
      after_stale_sweep = due (leb t.next_retention now) (run_retention_sweep env) >> polled

      after_heartbeat : Action Timers
      after_heartbeat = due (leb t.next_stale_sweep now) (stale_sweep env host) >> after_stale_sweep

  perform_activity-Follows :
      (a : Activity) (w : World) → Follows w.table (perform_activity env host a w).table
  unfolding perform_activity
  perform_activity-Follows starts w = orphan_sweep-Safe env host w
  perform_activity-Follows (round_at now t) w = main_round-Safe now t w
  perform_activity-Follows (call_task i bot) w = run_call-Safe env host i bot w
  perform_activity-Follows (request now r) w =
      Changed-Follows env.settings.call_concurrency_limit w.table _
        (step-Changed env.settings.call_concurrency_limit w.table (now, r))

-- The worker refines the lifecycle's diagram: in any sequence of starts of the runner, rounds of its
-- loop, tasks of claimed calls (with whatever happens while their bots run) and transactions that are
-- committed elsewhere, whatever docker, the disk, the receiver and the adapters answer, and with the
-- exceptions that come of it, no call is ever lost, and each one's status is reached from the one it had
-- along edges of the diagram.
pub perform_all-StatusPath :
    (env : Env) (host : Host) (activities : List Activity) (w : World) (i : ℕ) (f : Fate)
    → fate i w.table ≡ some f
    → (f' : Fate) × (fate i (perform_all env host activities w).table ≡ some f')
      × StatusPath f.status f'.status
unfolding perform_all
perform_all-StatusPath env host [] w i f h = Follows-refl w.table i f h
perform_all-StatusPath env host (a ∷ rest) w i f h =
    Follows-trans w.table (perform_activity env host a w).table _
      (perform_activity-Follows env host a w)
      (perform_all-StatusPath env host rest (perform_activity env host a w)) i f h
