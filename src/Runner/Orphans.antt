-- ===== src/Runner/Orphans.antt =====
-- Which calls the startup sweep fails (src/oreeai_notetaker/workers/bot_runner.py).
use native.Mathlib.Decide.{ℕ_discrete}
use oreeai_notetaker.Prelude.{
  ℕ, ◌≡◌, refl, ◌∙◌, ap, subst, Bool, true, false, ◌&&◌, List, [], ◌∷◌, Option, none, some, pos,
  String, arith, All, Bool-cases, Option-cases, inl, inr, ◌==◌, if◌then◌else◌, strip, splitlines,
  after_prefix,
}
use oreeai_notetaker.Call.{
  is_active, is_terminal, CallStatus, Call, Change, Table, get, fate_of, put,
}
use oreeai_notetaker.World.{
  Env, World, Action, returned, commit, note, docker_called, nothing_more, ◌>>◌,
}
use oreeai_notetaker.Runner.Effects.{fate, fate_found, transact-move, dispatch_webhook-SameFates}
use oreeai_notetaker.Runner.Settles.{failed_with, active_legal}
use oreeai_notetaker.Runner.Dispatch.{dispatch_webhook}
use oreeai_notetaker.Runner.Exit.{dispatch}
use oreeai_notetaker.Runner.Host.{Host, HasDocker, exited, DockerResult, run_docker}
use oreeai_notetaker.Runner.Sweeps.{
  container_prefix, is_zero, ps_args, reap, fail_orphan, sweep_call, sweep_container, orphan_sweep,
  for_each,
}
use oreeai_notetaker.Runner.Turns.{
  Turns, Turns-trans, same-Turns, Marks, nobody, the, failed_if, either, bind_returned, then-Marks,
  nothing-Marks, reap-Marks, docker_do-Marks, failed_row, put-Turns,
}
use oreeai_notetaker.Runner.Swept.{any_hit, kept-Turns, for_each-Marks}

-- The call whose container has the name on this line of `docker ps`.
unfoldable pub call_named : Host → String → Option ℕ
unfolding strip after_prefix
call_named host line = elim (after_prefix container_prefix (strip line)) [
  | none ↦ none
  | some raw ↦ host.uuid_of raw
]

abbrev pub hits : Option ℕ → ℕ → Bool
hits none j = false
hits (some i) j = i == j

hits-Turns :
    (h k : ℕ → Bool) (reason : String) (t u : Table)
    → ((j : ℕ) → h j ≡ k j)
    → Turns h reason t u
    → Turns k reason t u
hits-Turns h k reason t u e p j f g = p j f g ∙ ap (λ b. some (failed_if b reason f)) (e j)

terminal_inactive : (s : CallStatus) → is_terminal s ≡ true → is_active s ≡ false
terminal_inactive s h = ground arith

active_if : (s : CallStatus) → is_terminal s ≡ false → is_active s ≡ true
active_if s h = ground arith

abbrev reason : String
reason = "worker_restart"

missing-Turns : (i : ℕ) (t : Table) → get i t ≡ none → Turns (the i) reason t t
unfolding fate
missing-Turns i t missing j f e = elim (ℕ_discrete i j) [
  | yes hit ↦ absurd (gone (subst (λ k. get k t ≡ none) hit missing))
  | no miss ↦ ground (arith, miss, e)
]
  where
    gone : get j t ≡ none → ⊥
    gone none_there = ground (arith, none_there, e)

module _ (env : Env) (host : Host) (there : HasDocker host) where
  dispatch-Marks : (i : ℕ) (w : World) → Marks nobody reason w (dispatch env i w)
  dispatch-Marks i w = (
    dispatch_webhook env i w,
    refl,
    same-Turns reason w.table (dispatch_webhook env i w).table (dispatch_webhook-SameFates env i w),
  )

  abbrev after_failing : String → ℕ → Bool → Action (Unit {0})
  after_failing name i restart_failed =
      reap host name >> elim restart_failed [ true ↦ dispatch env i | false ↦ nothing_more ]

  after_failing-Marks :
      (name : String) (i : ℕ) (b : Bool) (w : World)
      → Marks (either nobody nobody) reason w (after_failing name i b w)
  after_failing-Marks name i true w =
      then-Marks nobody nobody reason (reap host name) (dispatch env i) w
        (reap-Marks host there reason name w) (λ w' p. dispatch-Marks i w')
  after_failing-Marks name i false w =
      then-Marks nobody nobody reason (reap host name) nothing_more w
        (reap-Marks host there reason name w) (λ w' p. nothing-Marks reason w')

  fail_orphan-Turns :
      (i : ℕ) (w : World)
      → (b : Bool) × (w' : World) × (fail_orphan env i w ≡ (returned b, w'))
        × Turns (the i) reason w.table w'.table
  unfolding fail_orphan
  fail_orphan-Turns i w = elim (Option-cases (get i w.table)) [
    | inl missing ↦
        (false, commit w.table w, rw (fail_orphan, missing) refl, missing-Turns i w.table missing)
    | inr (c, found) ↦ elim (Bool-cases (is_terminal c.status)) [
      | inl terminal ↦ (
        false,
        commit w.table w,
        rw (fail_orphan, found, terminal) refl,
        kept-Turns env reason i w c found (terminal_inactive c.status terminal),
      )
      | inr active ↦ (
        true,
        commit (put (failed_row env i reason w c found) w.table) w,
        rw (fail_orphan, found, active)
            (transact-move env i CallStatus.failed (Change.set_failure_reason reason ∷ []) w c found
              (active_legal c.status (active_if c.status active))),
        put-Turns env i reason w c found (active_if c.status active),
      )
    ]
  ]

  sweep_call-Marks :
      (name : String) (i : ℕ) (w : World) → Marks (the i) reason w (sweep_call env host name i w)
  unfolding sweep_call
  sweep_call-Marks name i w =
      let (b, w₁, e, p) = fail_orphan-Turns i w in
      let (w₂, g, q) = after_failing-Marks name i b w₁ in
      (
        w₂,
        bind_returned (fail_orphan env i) (after_failing name i) b w w₁ e ∙ g,
        hits-Turns (either (the i) (either nobody nobody)) (the i) reason w.table w₂.table
            (λ j. ground arith)
            (Turns-trans (the i) (either nobody nobody) reason w.table w₁.table w₂.table p q),
      )

  sweep_container-Marks :
      (line : String) (w : World)
      → Marks (hits (call_named host line)) reason w (sweep_container env host line w)
  unfolding sweep_container call_named
  sweep_container-Marks line w = go (after_prefix container_prefix (strip line)) refl
    where
      named :
          (raw : String) (o : Option ℕ)
          → after_prefix container_prefix (strip line) ≡ some raw
          → host.uuid_of raw ≡ o
          → Marks (hits (call_named host line)) reason w (sweep_container env host line w)
      named raw none e g =
          rw (call_named, sweep_container, e, g)
            (docker_do-Marks host there reason ("rm" ∷ "-f" ∷ strip line ∷ []) w)
      named raw (some i) e g =
          rw (call_named, sweep_container, e, g) (sweep_call-Marks (strip line) i w)

      go :
          (o : Option String)
          → after_prefix container_prefix (strip line) ≡ o
          → Marks (hits (call_named host line)) reason w (sweep_container env host line w)
      go none e = rw (call_named, sweep_container, e) (nothing-Marks reason w)
      go (some raw) e = named raw (host.uuid_of raw) e refl

-- The call has a container on the list that docker printed.
abbrev pub is_listed : Host → String → ℕ → Bool
is_listed host listing = any_hit (λ line. hits (call_named host line)) (splitlines listing)

no_conditions : {A : Type 0} (xs : List A) → All (λ x. Unit {0}) xs
no_conditions [] = tt
no_conditions (x ∷ xs) = (tt, no_conditions xs)

failed_both :
    (b : Bool) (c : Call)
    → failed_if b reason (fate_of c)
      ≡ (if b && is_active c.status then failed_with reason (fate_of c) else fate_of c)
failed_both b c = ground arith

-- If docker can be run and lists the containers, then the startup sweep returns, and after it a call
-- that was active and whose container is on the list has failed with `worker_restart`; every other
-- call has fared as before.
pub orphan_sweep_lem :
    (env : Env) (host : Host) (w : World) (listing errors : String)
    → HasDocker host
    → host.docker w.tick ps_args ≡ exited (some (pos 0)) listing errors
    → ((orphan_sweep env host w).0 ≡ returned tt)
      × ((j : ℕ) (c : Call)
          → get j w.table ≡ some c
          → fate j (orphan_sweep env host w).1.table
            ≡ some (
                if is_listed host listing j && is_active c.status
                then failed_with "worker_restart" (fate_of c)
                else fate_of c))
unfolding orphan_sweep run_docker
orphan_sweep_lem env host w listing errors there listed =
    let (w', e, turns) = swept in
    (
      ap (λ out. out.0) (started ∙ e),
      λ j c h.
          ap (λ out. fate j out.1.table) (started ∙ e)
          ∙ turns j (fate_of c) (fate_found j w.table c h)
          ∙ ap some (failed_both (is_listed host listing j) c),
    )
  where
    answer : DockerResult
    answer = record { returncode = pos 0; stdout = listing; stderr = errors }

    w₁ : World
    w₁ = note (docker_called ("docker" ∷ ps_args)) w

    started : orphan_sweep env host w ≡ for_each (sweep_container env host) (splitlines listing) w₁
    started =
        bind_returned (run_docker host ps_args)
          (λ l.
            if is_zero l.returncode
            then for_each (sweep_container env host) (splitlines l.stdout)
            else nothing_more)
          answer w w₁ (rw (run_docker, listed) refl)

    swept :
        Marks
          (is_listed host listing)
          reason
          w₁
          (for_each (sweep_container env host) (splitlines listing) w₁)
    swept =
        for_each-Marks reason (sweep_container env host) (λ line. hits (call_named host line))
          (λ line t. Unit {0}) (λ line t u stay h. tt)
          (λ line w h. sweep_container-Marks env host there line w) (splitlines listing) w₁
          (no_conditions (splitlines listing))
