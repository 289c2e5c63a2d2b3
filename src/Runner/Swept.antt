-- ===== src/Runner/Swept.antt =====
-- What the runner's two sweeps come to (src/oreeai_notetaker/workers/bot_runner.py).
use native.Mathlib.Decide.{ℕ_discrete}
use oreeai_notetaker.Prelude.{
  ℕ, ◌≡◌, refl, inl, inr, sym, subst, ◌∙◌, Bool, true, false, List, [], ◌∷◌, none, some, String,
  arith, Bool-cases, Option-cases, All,
}
use oreeai_notetaker.Call.{
  CallStatus, failed, is_active, status_in, Call, Change, Table, get, put, Fate, fate_of,
}
use oreeai_notetaker.Lifecycle.{legal_transitions, mark_failed}
use oreeai_notetaker.Lifecycle.Move.{move_accepted, move_refused}
use oreeai_notetaker.World.{Env, World, Action, transact, commit, nothing_more}
use oreeai_notetaker.Runner.Dispatch.{dispatch_webhook}
use oreeai_notetaker.Runner.Effects.{fate, fate_found, dispatch_webhook-SameFates}
use oreeai_notetaker.Runner.Settles.{active_legal, if_committed_ok}
use oreeai_notetaker.Runner.Exit.{dispatch, if_committed}
use oreeai_notetaker.Runner.Sweeps.{for_each}
use oreeai_notetaker.Runner.Turns.{
  Turns, Marks, nobody, either, the, bind_returned, then-Marks, nothing-Marks, IsThere, failed_row,
  put-Turns, failed_if,
}

-- `mark_failed` and its dispatch.
abbrev pub fail_call : Env → String → ℕ → Action (Unit {0})
fail_call env reason i =
    if_committed (transact env (λ now. mark_failed now i reason)) (dispatch env i)

inactive_illegal :
    (s : CallStatus) → is_active s ≡ false → status_in failed (legal_transitions s) ≡ false
inactive_illegal s h = ground arith

module _ (env : Env) (reason : String) (i : ℕ) (w : World) where
  dispatch-Turns :
      (h : ℕ → Bool) (t : Table)
      → Turns h reason w.table t
      → Turns h reason w.table (dispatch_webhook env i (commit t w)).table
  dispatch-Turns h t p j f e = dispatch_webhook-SameFates env i (commit t w) j ∙ p j f e

  -- A call in a terminal status stays as it is.
  pub kept-Turns :
      (c : Call)
      → get i w.table ≡ some c
      → is_active c.status ≡ false
      → Turns (the i) reason w.table w.table
  kept-Turns c h terminal j f e = elim (ℕ_discrete i j) [
    | yes hit ↦
        e
        ∙ left hit
            (sym (fate_found i w.table c h) ∙ subst (λ k. fate k w.table ≡ some f) (sym hit) e)
    | no miss ↦ ground (arith, miss, e)
  ]
    where
      left : i ≡ j → some (fate_of c) ≡ some f → some f ≡ some (failed_if (the i j) reason f)
      left hit same = ground (arith, hit, same, terminal)

  -- The call is failed and dispatched if it is active; in a terminal status it is left alone.
  pub fail_call-Marks : IsThere i w.table → Marks (the i) reason w (fail_call env reason i w)
  unfolding transact
  fail_call-Marks (c, h) = elim (Bool-cases (is_active c.status)) [
    | inl active ↦ (
      (dispatch_webhook env i (commit (put (failed_row env i reason w c h) w.table) w)),
      if_committed_ok env (λ now. mark_failed now i reason) (dispatch env i) w _ _
          (move_accepted (env.func_now w.tick) i failed (Change.set_failure_reason reason ∷ [])
            w.table c h (active_legal c.status active)),
      dispatch-Turns (the i) (put (failed_row env i reason w c h) w.table)
          (put-Turns env i reason w c h active),
    )
    | inr terminal ↦ (
      commit w.table w,
      bind_returned (transact env (λ now. mark_failed now i reason))
          (λ committed. elim committed [ true ↦ dispatch env i | false ↦ nothing_more ]) false w
          (commit w.table w)
          (rw
            (
              transact,
              move_refused (env.func_now w.tick) i failed (Change.set_failure_reason reason ∷ [])
                  w.table c h (inactive_illegal c.status terminal),
            )
            refl),
      kept-Turns c h terminal,
    )
  ]

-- The rows that are there stay there.
abbrev pub AllStay : Table → Table → Type 0
AllStay t u = (j : ℕ) → IsThere j t → IsThere j u

pub Turns-AllStay :
    (h : ℕ → Bool) (reason : String) (t u : Table) → Turns h reason t u → AllStay t u
unfolding fate
Turns-AllStay h reason t u p j (c, e) = elim (Option-cases (get j u)) [
  | inl missing ↦ absurd (gone missing (p j (fate_of c) (fate_found j t c e)))
  | inr (d, found) ↦ (d, found)
]
  where
    gone : {f : Fate} → get j u ≡ none → fate j u ≡ some f → ⊥
    gone missing found = ground (arith, missing, found)

abbrev pub any_hit : {A : Type 0} → (A → ℕ → Bool) → List A → ℕ → Bool
any_hit hit [] = nobody
any_hit hit (x ∷ xs) = either (hit x) (any_hit hit xs)

All-map :
    {A : Type 0} (P Q : A → Type 0) (xs : List A) → ((x : A) → P x → Q x) → All P xs → All Q xs
All-map P Q [] f h = tt
All-map P Q (x ∷ xs) f h = (f x h.0, All-map P Q xs f h.1)

-- A loop whose rounds each turn the table.
pub for_each-Marks :
    {A : Type 0} (reason : String) (f : A → Action (Unit {0})) (hit : A → ℕ → Bool)
    (ready : A → Table → Type 0)
    → ((x : A) (t u : Table) → AllStay t u → ready x t → ready x u)
    → ((x : A) (w : World) → ready x w.table → Marks (hit x) reason w (f x w))
    → (xs : List A) (w : World) → All (λ x. ready x w.table) xs
    → Marks (any_hit hit xs) reason w (for_each f xs w)
unfolding for_each
for_each-Marks reason f hit ready stays round [] w h = nothing-Marks reason w
for_each-Marks {A} reason f hit ready stays round (x ∷ xs) w h =
    then-Marks (hit x) (any_hit hit xs) reason (f x) (for_each f xs) w (round x w h.0) λ w' p.
      for_each-Marks reason f hit ready stays round xs w' (
        All-map (λ y. ready y w.table) (λ y. ready y w'.table) xs
          (λ y. stays y w.table w'.table (Turns-AllStay (hit x) reason w.table w'.table p)) h.1)
