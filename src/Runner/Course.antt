-- ===== src/Runner/Course.antt =====
-- What comes of a claimed call, from the start of its bot to its end
-- (src/oreeai_notetaker/workers/bot_runner.py).
use oreeai_notetaker.Prelude.{
  ℕ, ◌≡◌, refl, ◌∙◌, ap, sym, subst, String, Bool, true, false, not, ◌&&◌, ◌||◌, List, [], ◌∷◌,
  Option, none, some, Bool-cases, inl, inr, is_some, if◌then◌else◌, negsuc, rstrip,
}
use oreeai_notetaker.Call.{
  joining, recording, is_terminal, status_in, status_eq_iff, Call, get, put, Fate,
}
use oreeai_notetaker.Lifecycle.{legal_transitions, mark_recording}
use oreeai_notetaker.Lifecycle.Move.{moved, move_refused, put-moved}
use oreeai_notetaker.Lifecycle.Runs.{step, step-Changed}
use oreeai_notetaker.Lifecycle.History.{Changed-Kept}
use oreeai_notetaker.Transcription.Json.{Fields}
use oreeai_notetaker.World.{
  Env, World, Action, Outcome, returned, nothing_more, note, commit, transact, bot_spawned, ◌>>=◌,
}
use oreeai_notetaker.Runner.Contract.{IsTyped}
use oreeai_notetaker.Runner.Effects.{fate, transact-move}
use oreeai_notetaker.Runner.Ending.{apply_exit_status_terminal}
use oreeai_notetaker.Runner.Exit.{apply_exit_status}
use oreeai_notetaker.Runner.Host.{Host}
use oreeai_notetaker.Runner.Result.{parse_result_line, is_recording_signal}
use oreeai_notetaker.Runner.Spawn.{
  Told, line, overrun, elsewhere, BotRun, spawn_failed, ran, mark_call_recording, stream_from,
  spawn_bot, copy_profile, discard_profile, build_spawn_args, run_bot, run_call,
}
use oreeai_notetaker.Runner.Turns.{IsThere, bind_returned}

-- No line is longer than `readline` takes.
abbrev pub is_readable : List Told → Bool
is_readable [] = true
is_readable (overrun ∷ told) = false
is_readable (_ ∷ told) = is_readable told

abbrev pub is_readable_run : BotRun → Bool
is_readable_run spawn_failed = true
is_readable_run (ran told code) = is_readable told

-- It returned, and the row of `i` is there.
abbrev pub Leaves : ℕ → {A : Type 0} → Outcome A × World → Type 0
Leaves i {A} out = (a : A) × (w : World) × (out ≡ (returned a, w)) × IsThere i w.table

module _ (env : Env) (host : Host) (i : ℕ) where
  mark_call_recording-Leaves :
      (w : World) → IsThere i w.table → Leaves i (mark_call_recording env i w)
  unfolding mark_call_recording transact
  mark_call_recording-Leaves w (c, h) =
      elim (Bool-cases (status_in recording (legal_transitions c.status))) [
        | inl legal ↦ (
          tt,
          commit (put row w.table) w,
          bind_returned (transact env (λ now. mark_recording now i)) (λ committed. nothing_more)
              true w (commit (put row w.table) w) (transact-move env i recording [] w c h legal),
          (row, (put-moved (env.func_now w.tick) i recording [] w.table c h).0),
        )
        | inr illegal ↦ (
          tt,
          commit w.table w,
          bind_returned (transact env (λ now. mark_recording now i)) (λ committed. nothing_more)
              false w (commit w.table w)
              (rw (transact, move_refused (env.func_now w.tick) i recording [] w.table c h illegal)
                refl),
          (c, h),
        )
      ]
    where
      row : Call
      row = moved (env.func_now w.tick) recording [] c

  fires-Leaves :
      (b : Bool) (w : World)
      → IsThere i w.table
      → Leaves i ((if b then mark_call_recording env i else nothing_more) w)
  fires-Leaves true w there = mark_call_recording-Leaves w there
  fires-Leaves false w there = (tt, w, refl, there)

  then-Leaves :
      {A B : Type 0} (m : Action A) (f : A → Action B) (w : World)
      → Leaves i (m w)
      → ((a : A) (w' : World) → IsThere i w'.table → Leaves i (f a w'))
      → Leaves i ((m >>= f) w)
  then-Leaves m f w (a, w₁, e, there) next =
      let (b, w₂, g, still) = next a w₁ there in (b, w₂, bind_returned m f a w w₁ e ∙ g, still)

  stream_from-Leaves :
      (told : List Told) (result : Option Fields) (fired : Bool) (w : World)
      → is_readable told ≡ true
      → IsThere i w.table
      → Leaves i (stream_from env host i told result fired w)
  unfolding stream_from
  stream_from-Leaves [] result fired w h there = (result, w, refl, there)
  stream_from-Leaves (line raw ∷ told) result fired w h there =
      let text = rstrip raw in
      let parsed = parse_result_line host.reader text in
      let fires = not fired && is_recording_signal host.reader text in
      then-Leaves (if fires then mark_call_recording env i else nothing_more)
        (λ _.
          stream_from env host i told (if is_some parsed then parsed else result) (fires || fired))
        w (fires-Leaves fires w there)
        λ a w' still.
          stream_from-Leaves told (if is_some parsed then parsed else result) (fires || fired) w' h
            still
  stream_from-Leaves (overrun ∷ told) result fired w h there = cc
  stream_from-Leaves (elsewhere now request ∷ told) result fired w h (c, found) =
      let (c', still, k) =
        Changed-Kept i c (step-Changed env.settings.call_concurrency_limit w.table (now, request))
          found in
      stream_from-Leaves told result fired
        (commit (step env.settings.call_concurrency_limit w.table (now, request)) w) h (c', still)

  spawn_bot-Leaves :
      (args : List String) (bot : BotRun) (w : World)
      → is_readable_run bot ≡ true
      → IsThere i w.table
      → Leaves i (spawn_bot env host i args bot w)
  unfolding spawn_bot
  spawn_bot-Leaves args spawn_failed w h there = ((some (negsuc 0), none), w, refl, there)
  spawn_bot-Leaves args (ran told code) w h there =
      then-Leaves (stream_from env host i told none false)
        (λ result w'. (returned (some code, result), w')) (note (bot_spawned args) w)
        (stream_from-Leaves told none false (note (bot_spawned args) w) h there)
        (λ result w' still. ((some code, result), w', refl, still))

  -- The action returned, and the call is done or failed.
  abbrev pub Finished : Outcome (Unit {0}) × World → Type 0
  Finished (r, w') =
      (r ≡ returned tt) × (f : Fate) × (fate i w'.table ≡ some f) × (is_terminal f.status ≡ true)

  discarded-IsThere :
      (profile : Option String) (w : World)
      → IsThere i w.table
      → IsThere i (discard_profile profile w).table
  discarded-IsThere none w there = there
  discarded-IsThere (some p) w there = there

  run_bot-Finished :
      (profile : Option String) (c : Call) (bot : BotRun) (w : World)
      → IsTyped env
      → is_readable_run bot ≡ true
      → IsThere i w.table
      → Finished (run_bot env host i profile c bot w)
  unfolding run_bot
  run_bot-Finished profile c bot w typed h there =
      let ((code, result), w₁, e, still) =
        spawn_bot-Leaves (build_spawn_args env host c profile none []) bot w h there in
      let (d, found) = discarded-IsThere profile w₁ still in
      subst Finished
        (sym (
          ap
            (λ out.
              ((λ _. (out.0, discard_profile profile out.1)) >>= λ (exit_code, result).
              apply_exit_status env i exit_code result)
                (discard_profile profile out.1))
            e))
        (apply_exit_status_terminal env i code result (discard_profile profile w₁) d typed found)

-- A call that was claimed is not stranded by its bot: whatever the bot writes, whatever its exit code is,
-- even if it cannot be started, and whatever other tasks request of the call service while it runs,
-- `run_call` returns with the call done or failed, if no line of the output is longer than `readline`
-- takes, the adapters raise nothing but the errors of their contracts, and no other task acts on the
-- call between the transactions that follow the bot's exit.
pub run_call_terminal :
    (env : Env) (host : Host) (i : ℕ) (bot : BotRun) (w : World) (c : Call)
    → IsTyped env
    → is_readable_run bot ≡ true
    → get i w.table ≡ some c
    → c.status ≡ joining
    → Finished env host i (run_call env host i bot w)
unfolding run_call
run_call_terminal env host i bot w c typed h found s =
    rw (run_call, found, (status_eq_iff c.status joining).1 s)
      (run_bot-Finished env host i (copy_profile env host i w) c bot w typed h (c, found))
