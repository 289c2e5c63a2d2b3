-- ===== src/Runner/SafeTasks.antt =====
-- The polls and the tasks of the claimed calls, exceptions included, and the lifecycle's diagram
-- (src/oreeai_notetaker/workers/bot_runner.py).
use oreeai_notetaker.Prelude.{
  ℕ, ℤ, ◌≡◌, refl, subst, Bool, false, not, ◌&&◌, ◌||◌, List, [], ◌∷◌, Option, none, some, String,
  Option-cases, Bool-cases, inl, inr, is_some, if◌then◌else◌, rstrip, ltb,
}
use oreeai_notetaker.Call.{
  joining, recording, failed, status_eq, Call, Change, Table, get, count_active,
}
use oreeai_notetaker.Errors.{Result, ok, err}
use oreeai_notetaker.Schema.{CallRead}
use oreeai_notetaker.Lifecycle.{mark_failed, mark_recording, mark_bot_started}
use oreeai_notetaker.Lifecycle.Runs.{after, step, step-Changed}
use oreeai_notetaker.Transcription.Json.{Fields}
use oreeai_notetaker.World.{
  Env, World, Outcome, returned, nothing_more, note, commit, transact, bot_spawned,
}
use oreeai_notetaker.Runner.Exit.{apply_exit_status}
use oreeai_notetaker.Runner.Poll.{
  next_queued, refuse, claim, poll_once, container_name, audio_disk_ok,
}
use oreeai_notetaker.Runner.Host.{Host}
use oreeai_notetaker.Runner.Result.{parse_result_line, is_recording_signal}
use oreeai_notetaker.Runner.Spawn.{
  Told, line, overrun, elsewhere, BotRun, spawn_failed, ran, mark_call_recording, stream_from,
  spawn_bot, copy_profile, discard_profile, build_spawn_args, run_bot, run_call,
}
use oreeai_notetaker.Runner.Safe.{
  Follows, Follows-refl, Follows-trans, Changed-Follows, Safe, after-Safe, bind-Safe, nothing-Safe,
  if-Safe, dispatch-Safe, transact-Safe, move-Leads,
}
use oreeai_notetaker.Runner.SafeExit.{apply_exit_status-Safe}

module _ (env : Env) where
  refuse-Safe : (i : ℕ) (reason : String) → Safe (refuse env i reason)
  unfolding refuse
  refuse-Safe i reason w = go (mark_failed (env.func_now w.tick) i reason w.table) refl
    where
      go :
          (r : Result (CallRead × Table))
          → mark_failed (env.func_now w.tick) i reason w.table ≡ r
          → Follows w.table (refuse env i reason w).1.table
      go (ok (_, t)) e =
          rw (refuse, e)
            (Follows-trans w.table t _
              (subst (λ r. Follows w.table (after w.table r)) e
                (move-Leads i failed (Change.set_failure_reason reason ∷ []) (env.func_now w.tick)
                  w.table))
              (dispatch-Safe env i (commit t w)))
      go (err x) e = rw (refuse, e) (Follows-refl w.table)

  claim-Safe : (i : ℕ) → Safe (claim env i)
  unfolding claim
  claim-Safe i w = go (mark_bot_started (env.func_now w.tick) i (container_name env i) w.table) refl
    where
      go :
          (r : Result (CallRead × Table))
          → mark_bot_started (env.func_now w.tick) i (container_name env i) w.table ≡ r
          → Follows w.table (claim env i w).1.table
      go (ok (_, t)) e =
          rw (claim, e)
            (subst (λ r. Follows w.table (after w.table r)) e
              (move-Leads i joining (Change.set_bot_container_name (container_name env i) ∷ [])
                (env.func_now w.tick) w.table))
      go (err x) e = rw (claim, e) (Follows-refl w.table)

  pub poll_once-Safe : Safe (poll_once env)
  unfolding poll_once
  poll_once-Safe w = elim (Option-cases (next_queued (env.locked w.tick) w.table)) [
    | inl idle ↦ rw (poll_once, idle) (Follows-refl w.table)
    | inr (c, found) ↦
        elim (Bool-cases (ltb env.settings.call_concurrency_limit (count_active w.table))) [
          | inl over ↦ rw (poll_once, found, over) (refuse-Safe c.id "concurrency_limit" w)
          | inr room ↦ elim (Bool-cases (audio_disk_ok (env.disk_free w.tick))) [
            | inl fits ↦ rw (poll_once, found, room, fits) (claim-Safe c.id w)
            | inr full ↦ rw (poll_once, found, room, full) (refuse-Safe c.id "disk_full" w)
          ]
        ]
  ]

module _ (env : Env) (host : Host) (i : ℕ) where
  mark_call_recording-Safe : Safe (mark_call_recording env i)
  unfolding mark_call_recording
  mark_call_recording-Safe =
      bind-Safe (transact env (λ now. mark_recording now i)) (λ committed. nothing_more)
        (transact-Safe env (λ now. mark_recording now i) (move-Leads i recording []))
        (λ b. nothing-Safe)

  stream_from-Safe :
      (told : List Told) (result : Option Fields) (fired : Bool)
      → Safe (stream_from env host i told result fired)
  unfolding stream_from
  stream_from-Safe [] result fired w = Follows-refl w.table
  stream_from-Safe (line raw ∷ told) result fired w =
      let text = rstrip raw in
      let parsed = parse_result_line host.reader text in
      let fires = not fired && is_recording_signal host.reader text in
      bind-Safe (if fires then mark_call_recording env i else nothing_more)
        (λ _.
          stream_from env host i told (if is_some parsed then parsed else result) (fires || fired))
        (if-Safe fires (mark_call_recording env i) nothing_more mark_call_recording-Safe
          nothing-Safe)
        (λ a. stream_from-Safe told (if is_some parsed then parsed else result) (fires || fired)) w
  stream_from-Safe (overrun ∷ told) result fired w = Follows-refl w.table
  stream_from-Safe (elsewhere now request ∷ told) result fired w =
      let limit = env.settings.call_concurrency_limit in
      let t = step limit w.table (now, request) in
      Follows-trans w.table t _
        (Changed-Follows limit w.table t (step-Changed limit w.table (now, request)))
        (stream_from-Safe told result fired (commit t w))

  spawn_bot-Safe : (args : List String) (bot : BotRun) → Safe (spawn_bot env host i args bot)
  unfolding spawn_bot
  spawn_bot-Safe args spawn_failed w = Follows-refl w.table
  spawn_bot-Safe args (ran told code) w =
      bind-Safe (stream_from env host i told none false)
        (λ result w'. (returned (some code, result), w')) (stream_from-Safe told none false)
        (λ result w'. Follows-refl w'.table) (note (bot_spawned args) w)

  discarded-Follows :
      (profile : Option String) (t : Table) (w : World)
      → Follows t w.table
      → Follows t (discard_profile profile w).table
  discarded-Follows none t w h = h
  discarded-Follows (some p) t w h = h

  run_bot-Safe :
      (profile : Option String) (c : Call) (bot : BotRun) → Safe (run_bot env host i profile c bot)
  unfolding run_bot
  run_bot-Safe profile c bot w =
      after-Safe (λ (exit_code, result). apply_exit_status env i exit_code result) w.table
        (discard_profile profile out.1) (out.0, discard_profile profile out.1)
        (λ (exit_code, result). apply_exit_status-Safe env i exit_code result)
        (discarded-Follows profile w.table out.1 (spawn_bot-Safe args bot w))
    where
      args : List String
      args = build_spawn_args env host c profile none []

      out : Outcome (Option ℤ × Option Fields) × World
      out = spawn_bot env host i args bot w

  pub run_call-Safe : (bot : BotRun) → Safe (run_call env host i bot)
  unfolding run_call
  run_call-Safe bot w = elim (Option-cases (get i w.table)) [
    | inl missing ↦
        rw (run_call, missing)
          (discarded-Follows (copy_profile env host i w) w.table w (Follows-refl w.table))
    | inr (c, found) ↦ elim (Bool-cases (status_eq c.status joining)) [
      | inl ready ↦ rw (run_call, found, ready) (run_bot-Safe (copy_profile env host i w) c bot w)
      | inr late ↦
          rw (run_call, found, late)
            (discarded-Follows (copy_profile env host i w) w.table w (Follows-refl w.table))
    ]
  ]
