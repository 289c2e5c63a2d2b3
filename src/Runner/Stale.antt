-- ===== src/Runner/Stale.antt =====
-- Which calls the stale sweep fails (src/oreeai_notetaker/workers/bot_runner.py).
use native.Mathlib.Decide.{ℕ_discrete}
use oreeai_notetaker.Prelude.{
  ℕ, ◌≡◌, refl, subst, ◌∙◌, ap, Bool, true, false, List, [], ◌∷◌, none, some, String, arith, All,
  Bool-cases, inl, inr, ◌==◌, if◌then◌else◌,
}
use oreeai_notetaker.Call.{is_active, Call, Table, get, fate_of}
use oreeai_notetaker.Retention.Window.{IsKeyed}
use oreeai_notetaker.World.{Env, World, Settings, returned, commit}
use oreeai_notetaker.Runner.Effects.{fate, fate_found}
use oreeai_notetaker.Runner.Settles.{failed_with}
use oreeai_notetaker.Runner.Poll.{container_name}
use oreeai_notetaker.Runner.Host.{Host, HasDocker}
use oreeai_notetaker.Runner.Sweeps.{
  is_stale, stale_ids, reap, fail_stale, stale_sweep_inner, stale_sweep,
}
use oreeai_notetaker.Runner.Turns.{Marks, nobody, the, IsThere, failed_if, then-Marks, reap-Marks}
use oreeai_notetaker.Runner.Swept.{
  Turns-AllStay, any_hit, fail_call, fail_call-Marks, for_each-Marks,
}

IsThere-cons : (i : ℕ) (x : Call) (t : Table) → IsThere i t → IsThere i (x ∷ t)
IsThere-cons i x t (c, h) = elim (Bool-cases (x.id == i)) [
  | inl hit ↦ (x, ground arith)
  | inr miss ↦ (c, ground arith)
]

All-IsThere :
    (is : List ℕ) (x : Call) (t : Table)
    → All (λ i. IsThere i t) is
    → All (λ i. IsThere i (x ∷ t)) is
All-IsThere [] x t h = tt
All-IsThere (i ∷ is) x t h = (IsThere-cons i x t h.0, All-IsThere is x t h.1)

module _ (settings : Settings) (now : ℕ) where
  stale_ids-IsThere : (t : Table) → All (λ i. IsThere i t) (stale_ids settings now t)
  unfolding stale_ids
  stale_ids-IsThere [] = tt
  stale_ids-IsThere (x ∷ t) = elim (Bool-cases (is_stale settings now x)) [
    | inl stale ↦
        rw (stale_ids, stale)
          ((x, ground arith), All-IsThere (stale_ids settings now t) x t (stale_ids-IsThere t))
    | inr fresh ↦
        rw (stale_ids, fresh) (All-IsThere (stale_ids settings now t) x t (stale_ids-IsThere t))
  ]

  stale_ids_missing :
      (t : Table) (j : ℕ) → get j t ≡ none → any_hit the (stale_ids settings now t) j ≡ false
  unfolding stale_ids
  stale_ids_missing [] j h = refl
  stale_ids_missing (x ∷ t) j h = ground (arith, stale_ids_missing t j)

  stale_ids_hit :
      (t : Table) (j : ℕ) (c : Call)
      → IsKeyed t
      → get j t ≡ some c
      → any_hit the (stale_ids settings now t) j ≡ is_stale settings now c
  unfolding stale_ids
  stale_ids_hit [] j c k h = cc
  stale_ids_hit (x ∷ t) j c k h = elim (ℕ_discrete x.id j) [
    | yes hit ↦
        let same : x ≡ c = ground arith in
        rw (← same) (
          ground (
            arith,
            hit,
            subst (λ i. any_hit the (stale_ids settings now t) i ≡ false) hit
                (stale_ids_missing t x.id k.0),
          ))
    | no miss ↦ ground (arith, stale_ids_hit t j c k.1)
  ]

  stale_active : (c : Call) → is_stale settings now c ≡ true → is_active c.status ≡ true
  unfolding is_stale
  stale_active c h = ground arith

module _ (env : Env) (host : Host) (there : HasDocker host) where
  fail_stale-Marks :
      (i : ℕ) (w : World)
      → IsThere i w.table
      → Marks (the i) "stale_call" w (fail_stale env host i w)
  unfolding fail_stale
  fail_stale-Marks i w h =
      then-Marks nobody (the i) "stale_call" (reap host (container_name env i))
        (fail_call env "stale_call" i) w
        (reap-Marks host there "stale_call" (container_name env i) w)
        (λ w' p.
          fail_call-Marks env "stale_call" i w'
            (Turns-AllStay nobody "stale_call" w.table w'.table p i h))

failed_if_active :
    (b : Bool) (reason : String) (c : Call)
    → (b ≡ true → is_active c.status ≡ true)
    → failed_if b reason (fate_of c) ≡ (if b then failed_with reason (fate_of c) else fate_of c)
failed_if_active true reason c h = ground (arith, h refl)
failed_if_active false reason c h = refl

-- If docker can be run, whatever it answers, then a stale sweep returns, and after it a call has failed
-- with `stale_call` exactly if it was stale (`joining` or `recording` for longer than
-- BOT_MAX_RECORD_DURATION and the grace, or `processing` for longer than its cutoff); every other call
-- has fared as before.
pub stale_sweep_lem :
    (env : Env) (host : Host) (w : World)
    → HasDocker host
    → IsKeyed w.table
    → ((stale_sweep env host w).0 ≡ returned tt)
      × ((j : ℕ) (c : Call)
          → get j w.table ≡ some c
          → fate j (stale_sweep env host w).1.table
            ≡ some (
                if is_stale env.settings (env.wall_clock w.tick) c
                then failed_with "stale_call" (fate_of c)
                else fate_of c))
unfolding stale_sweep stale_sweep_inner
stale_sweep_lem env host w there k = (refl, result swept)
  where
    ids : List ℕ
    ids = stale_ids env.settings (env.wall_clock w.tick) w.table

    swept : Marks (any_hit the ids) "stale_call" (commit w.table w) (stale_sweep_inner env host w)
    swept =
        for_each-Marks "stale_call" (fail_stale env host) the IsThere (λ i t u stay. stay i)
          (fail_stale-Marks env host there) ids (commit w.table w)
          (stale_ids-IsThere env.settings (env.wall_clock w.tick) w.table)

    result :
        Marks (any_hit the ids) "stale_call" (commit w.table w) (stale_sweep_inner env host w)
        → (j : ℕ) (c : Call) → get j w.table ≡ some c
        → fate j (stale_sweep_inner env host w).1.table
          ≡ some (
              if is_stale env.settings (env.wall_clock w.tick) c
              then failed_with "stale_call" (fate_of c)
              else fate_of c)
    result (w', e, turns) j c h =
        ap (λ out. fate j out.1.table) e
        ∙ turns j (fate_of c) (fate_found j w.table c h)
        ∙ ap some (
            rw (stale_ids_hit env.settings (env.wall_clock w.tick) w.table j c k h) (
              failed_if_active (is_stale env.settings (env.wall_clock w.tick) c) "stale_call" c
                (stale_active env.settings (env.wall_clock w.tick) c)))
