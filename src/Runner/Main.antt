-- ===== src/Runner/Main.antt =====
-- src/oreeai_notetaker/workers/bot_runner.py: the rounds of `main`, and what can happen to the table.
-- Times of the event loop are numbers of microseconds.
use oreeai_notetaker.Prelude.{ℕ, ◌+◌, ◌*◌, Bool, List, [], ◌∷◌, leb, if◌then◌else◌}
use oreeai_notetaker.Lifecycle.Runs.{Request, step}
use oreeai_notetaker.Retention.{enforce_retention}
use oreeai_notetaker.World.{
  Env, World, Action, returned, pure, nothing_more, note, commit, heartbeat_set, ◌>>=◌, ◌>>◌,
}
use oreeai_notetaker.Runner.Poll.{poll_once}
use oreeai_notetaker.Runner.Host.{Host}
use oreeai_notetaker.Runner.Spawn.{BotRun, run_call}
use oreeai_notetaker.Runner.Sweeps.{second, stale_sweep, orphan_sweep}

-- `HEARTBEAT_INTERVAL_S`, `STALE_SWEEP_INTERVAL_S` and `RETENTION_INTERVAL_S`
abbrev pub heartbeat_interval : ℕ
heartbeat_interval = 10 * second

abbrev pub stale_sweep_interval : ℕ
stale_sweep_interval = 60 * second

abbrev pub retention_interval : ℕ
retention_interval = 60 * second

-- The local variables of `main`'s loop.
pub record Timers : Type 0 where
  pub next_heartbeat : ℕ
  pub next_stale_sweep : ℕ
  pub next_retention : ℕ

abbrev pub first_timers : Timers
first_timers = record { next_heartbeat = 0; next_stale_sweep = 0; next_retention = 0 }

-- `_heartbeat`; `CacheService.set` raises nothing.
unfoldable pub heartbeat : Env → Action (Unit {0})
heartbeat env w = (returned tt, note (heartbeat_set (env.wall_clock w.tick)) w)

-- `_run_retention_sweep`
unfoldable pub run_retention_sweep : Env → Action (Unit {0})
unfolding enforce_retention
run_retention_sweep env w = (returned tt, (enforce_retention env w).1)

abbrev pub due : Bool → Action (Unit {0}) → Action (Unit {0})
due b m = if b then m else nothing_more

-- The next deadline of a task that is due, or the one that stands.
abbrev pub rearmed : ℕ → ℕ → ℕ → ℕ
rearmed now interval next = if leb next now then now + interval else next

-- One round of `while True:`, at `loop.time()`.
unfoldable pub main_round : Env → Host → ℕ → Timers → Action Timers
unfolding heartbeat stale_sweep run_retention_sweep poll_once
main_round env host now t =
    due (leb t.next_heartbeat now) (heartbeat env)
    >> (due (leb t.next_stale_sweep now) (stale_sweep env host)
        >> (due (leb t.next_retention now) (run_retention_sweep env)
            >> (poll_once env >>= λ claimed. pure (record {
              next_heartbeat = rearmed now heartbeat_interval t.next_heartbeat;
              next_stale_sweep = rearmed now stale_sweep_interval t.next_stale_sweep;
              next_retention = rearmed now retention_interval t.next_retention;
            }))))

-- What can happen to the table: a start of the runner, a round of its loop, the task of a claimed call,
-- or a transaction that the API or another process commits.
pub data Activity : Type 0 where
  starts : Activity
  round_at : ℕ → Timers → Activity
  call_task : ℕ → BotRun → Activity
  request : ℕ → Request → Activity

-- An exception ends the activity; what was committed stays.
unfoldable pub perform_activity : Env → Host → Activity → World → World
unfolding orphan_sweep main_round run_call step
perform_activity env host starts w = (orphan_sweep env host w).1
perform_activity env host (round_at now t) w = (main_round env host now t w).1
perform_activity env host (call_task i bot) w = (run_call env host i bot w).1
perform_activity env host (request now r) w =
    commit (step env.settings.call_concurrency_limit w.table (now, r)) w

unfoldable pub perform_all : Env → Host → List Activity → World → World
unfolding perform_activity
perform_all env host [] w = w
perform_all env host (a ∷ rest) w = perform_all env host rest (perform_activity env host a w)
