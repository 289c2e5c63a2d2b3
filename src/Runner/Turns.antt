-- ===== src/Runner/Turns.antt =====
-- Actions that fail some calls and leave the others as they were
-- (src/oreeai_notetaker/workers/bot_runner.py).
use native.Mathlib.Decide.{ℕ_discrete}
use oreeai_notetaker.Prelude.{
  ℕ, ◌≡◌, refl, sym, ap, subst, ◌∙◌, Bool, true, false, ◌||◌, List, [], ◌∷◌, some, String, arith,
  ◌==◌, if◌then◌else◌,
}
use oreeai_notetaker.Call.{failed, is_active, Call, Change, Table, get, put, Fate, fate_of}
use oreeai_notetaker.Lifecycle.Move.{moved, put-moved}
use oreeai_notetaker.World.{
  Env, World, Action, Outcome, returned, nothing_more, note, docker_called, ◌>>=◌, ◌>>◌,
}
use oreeai_notetaker.Runner.Effects.{fate, fate_found, SameFates}
use oreeai_notetaker.Runner.Settles.{failed_with, put_self}
use oreeai_notetaker.Runner.Host.{
  Host, HasDocker, Subprocess, is_started, DockerResult, returncode_or, run_docker, docker_do,
}
use oreeai_notetaker.Runner.Sweeps.{reap}

-- A call that is hit fails if it is active.
abbrev pub failed_if : Bool → String → Fate → Fate
failed_if hit reason f = if hit then (if is_active f.status then failed_with reason f else f) else f

-- The calls that are hit have failed; the others have fared as before.
abbrev pub Turns : (ℕ → Bool) → String → Table → Table → Type 0
Turns hit reason t t' =
    (j : ℕ) (f : Fate) → fate j t ≡ some f → fate j t' ≡ some (failed_if (hit j) reason f)

abbrev pub nobody : ℕ → Bool
nobody j = false

abbrev pub either : (ℕ → Bool) → (ℕ → Bool) → ℕ → Bool
either h k j = h j || k j

failed_if_twice :
    (a b : Bool) (reason : String) (f : Fate)
    → failed_if b reason (failed_if a reason f) ≡ failed_if (a || b) reason f
failed_if_twice a b reason f = ground arith

pub Turns-trans :
    (h k : ℕ → Bool) (reason : String) (t u v : Table)
    → Turns h reason t u
    → Turns k reason u v
    → Turns (either h k) reason t v
Turns-trans h k reason t u v p q j f e =
    q j (failed_if (h j) reason f) (p j f e) ∙ ap some (failed_if_twice (h j) (k j) reason f)

pub same-Turns : (reason : String) (t u : Table) → SameFates t u → Turns nobody reason t u
same-Turns reason t u same j f e = same j ∙ e

-- The action returned, and has turned the table so.
abbrev pub Marks : (ℕ → Bool) → String → World → Outcome (Unit {0}) × World → Type 0
Marks hit reason w out =
    (w' : World) × (out ≡ (returned tt, w')) × Turns hit reason w.table w'.table

pub bind_returned :
    {A B : Type 0} (m : Action A) (f : A → Action B) (a : A) (w w' : World)
    → m w ≡ (returned a, w')
    → (m >>= f) w ≡ f a w'
bind_returned m f a w w' h = ap (λ p. ((λ _. p) >>= f) w) h

pub then-Marks :
    (h k : ℕ → Bool) (reason : String) (m n : Action (Unit {0})) (w : World)
    → Marks h reason w (m w)
    → ((w' : World) → Turns h reason w.table w'.table → Marks k reason w' (n w'))
    → Marks (either h k) reason w ((m >> n) w)
then-Marks h k reason m n w (w₁, e, p) next =
    let (w₂, g, q) = next w₁ p in
    (
      w₂,
      bind_returned m (λ _. n) tt w w₁ e ∙ g,
      Turns-trans h k reason w.table w₁.table w₂.table p q,
    )

pub nothing-Marks : (reason : String) (w : World) → Marks nobody reason w (nothing_more w)
nothing-Marks reason w = (w, refl, λ j f e. e)

module _ (host : Host) (there : HasDocker host) (reason : String) where
  run_docker_returned :
      (args : List String) (w : World)
      → (d : DockerResult) × (run_docker host args w
          ≡ (returned d, note (docker_called ("docker" ∷ args)) w))
  unfolding run_docker
  run_docker_returned args w = go (host.docker w.tick args) refl (there w.tick args)
    where
      go :
          (s : Subprocess)
          → host.docker w.tick args ≡ s
          → is_started s ≡ true
          → (d : DockerResult) × (run_docker host args w
              ≡ (returned d, note (docker_called ("docker" ∷ args)) w))
      go Subprocess.not_started e h = cc
      go (Subprocess.exited code out_text err_text) e h = (
        record { returncode = returncode_or code; stdout = out_text; stderr = err_text },
        rw (e, run_docker) refl,
      )

  pub docker_do-Marks :
      (args : List String) (w : World) → Marks nobody reason w (docker_do host args w)
  docker_do-Marks args w =
      let (d, e) = run_docker_returned args w in
      (_, bind_returned (run_docker host args) (λ _. nothing_more) d w _ e, λ j f g. g)

  pub reap-Marks : (name : String) (w : World) → Marks nobody reason w (reap host name w)
  unfolding reap
  reap-Marks name w =
      then-Marks nobody nobody reason (docker_do host ("kill" ∷ name ∷ []))
        (docker_do host ("rm" ∷ "-f" ∷ name ∷ [])) w (docker_do-Marks ("kill" ∷ name ∷ []) w)
        (λ w' e. docker_do-Marks ("rm" ∷ "-f" ∷ name ∷ []) w')

-- A row is there.
abbrev pub IsThere : ℕ → Table → Type 0
IsThere i t = (c : Call) × (get i t ≡ some c)

abbrev pub the : ℕ → ℕ → Bool
the i j = i == j

fate-get : (j : ℕ) (t u : Table) → get j u ≡ get j t → fate j u ≡ fate j t
unfolding fate
fate-get j t u h = ground (arith, h)

module _ (env : Env) (i : ℕ) (reason : String) (w : World) (c : Call)
    (h : get i w.table ≡ some c) where
  abbrev pub failed_row : Call
  failed_row = moved (env.func_now w.tick) failed (Change.set_failure_reason reason ∷ []) c

  pub put-Turns : is_active c.status ≡ true → Turns (the i) reason w.table (put failed_row w.table)
  put-Turns active j f e = elim (ℕ_discrete i j) [
    | yes hit ↦
        subst (λ k. fate k (put failed_row w.table) ≡ some (fate_of failed_row)) hit
          (fate_found i (put failed_row w.table) failed_row
            (put_self i c failed_row w.table h refl))
        ∙ turned hit
            (sym (fate_found i w.table c h) ∙ subst (λ k. fate k w.table ≡ some f) (sym hit) e)
    | no miss ↦
        fate-get j w.table (put failed_row w.table) (
          (put-moved (env.func_now w.tick) i failed (Change.set_failure_reason reason ∷ []) w.table
              c h).1
            j (λ e. miss (sym e)))
        ∙ e
        ∙ ground (arith, miss)
  ]
    where
      turned :
          i ≡ j
          → some (fate_of c) ≡ some f
          → some (fate_of failed_row) ≡ some (failed_if (the i j) reason f)
      turned hit same = ground (arith, hit, same, active)
