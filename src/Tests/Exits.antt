-- ===== src/Tests/Exits.antt =====
-- Bots that exit, and a poll (src/oreeai_notetaker/workers/bot_runner.py).
use oreeai_notetaker.Prelude.{◌≡◌, refl, true, none, some, pos}
use oreeai_notetaker.Call.{Fate, fate_of, is_terminal}
use oreeai_notetaker.World.{returned}
use oreeai_notetaker.Runner.ExitTable.{decide_exit, result_end_reason}
use oreeai_notetaker.Runner.Dispatch.{dispatch_webhook}
use oreeai_notetaker.Runner.Effects.{fate, dispatch_webhook-SameFates}
use oreeai_notetaker.Storage.{AudioSource}
use oreeai_notetaker.Runner.Exit.{apply_exit_status}
use oreeai_notetaker.Runner.Typed.{Settled}
use oreeai_notetaker.Runner.Ending.{apply_exit_status-Settled, apply_exit_status_terminal}
use oreeai_notetaker.Runner.Poll.{next_queued, poll_once}
use oreeai_notetaker.Runner.Queue.{IsNext, next_queued-IsNext}
use oreeai_notetaker.Runner.Claim.{Polled, poll_once-Polled}
use oreeai_notetaker.Tests.Data.{env, env-IsTyped, world, recorded_call}

abbrev answered : AudioSource
answered = record { url = some "https://b/x"; local_path = none; size_bytes = 1000 }

apply_exit_status-Settled_example :
    Settled env 7
      (decide_exit (some (pos 0)) none recorded_call.status)
      (fate_of recorded_call)
      world.scratch
      (apply_exit_status env 7 (some (pos 0)) none world)
unfolding result_end_reason
apply_exit_status-Settled_example =
    apply_exit_status-Settled env 7 (some (pos 0)) none world recorded_call env-IsTyped refl refl

apply_exit_status_terminal_example :
    let (r, w') = apply_exit_status env 7 (some (pos 4)) none world in
    (r ≡ returned tt) × (f : Fate) × (fate 7 w'.table ≡ some f) × (is_terminal f.status ≡ true)
apply_exit_status_terminal_example =
    apply_exit_status_terminal env 7 (some (pos 4)) none world recorded_call env-IsTyped refl

dispatch_webhook-SameFates_example :
    fate 8 (dispatch_webhook env 8 world).table ≡ fate 8 world.table
dispatch_webhook-SameFates_example = dispatch_webhook-SameFates env 8 world 8

next_queued-IsNext_example :
    IsNext (env.locked 0) world.table (next_queued (env.locked 0) world.table)
next_queued-IsNext_example =
    next_queued-IsNext (env.locked 0) world.table (refl, (refl, (refl, tt)))

poll_once-Polled_example : Polled env world (poll_once env world)
poll_once-Polled_example = poll_once-Polled env world (refl, (refl, (refl, tt)))
