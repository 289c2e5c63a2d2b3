-- ===== src/Runner/Dispatch.antt =====
-- src/oreeai_notetaker/workers/bot_runner.py: `dispatch_webhook`.
use oreeai_notetaker.Prelude.{ℕ, ◌/◌, none, some, if◌then◌else◌, is_some, not, ◌||◌}
use oreeai_notetaker.Call.{Call, is_terminal, get, put}
use oreeai_notetaker.Webhook.{deliver}
use oreeai_notetaker.World.{Env, World, note, dispatched}

-- The call as loaded is delivered; whatever came of it is committed.
unfoldable pub deliver_loaded : Env → Call → World → World
deliver_loaded env call w =
    let d =
      deliver env.codec (env.func_now w.tick) (env.wall_clock w.tick / 1000000)
        env.settings.webhook_max_attempts (env.post w.tick) call in
    note (dispatched call.id d.posts) (record w { table = put d.call w.table })

unfoldable pub dispatch_webhook : Env → ℕ → World → World
unfolding deliver_loaded
dispatch_webhook env i w = elim (get i w.table) [
  | none ↦ w
  | some call ↦
      if is_some call.webhook_delivered_at || not (is_terminal call.status)
      then w
      else deliver_loaded env call w
]
