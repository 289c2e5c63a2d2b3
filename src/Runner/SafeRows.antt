-- ===== src/Runner/SafeRows.antt =====
-- A flush that leaves the status, a retention sweep, and the lifecycle's diagram
-- (src/oreeai_notetaker/repositories/base.py, workers/retention.py).
use native.Mathlib.Decide.{ℕ_discrete}
use oreeai_notetaker.Prelude.{ℕ, ◌≡◌, sym, ◌∙◌, ap, subst, none, some, arith}
use oreeai_notetaker.Call.{Call, Table, get, put, Fate, fate_of, get-put_ne, get-id}
use oreeai_notetaker.Lifecycle.History.{StatusPath, stay}
use oreeai_notetaker.Retention.{enforce_retention}
use oreeai_notetaker.Retention.Sweep.{Swept, untouched, cleared}
use oreeai_notetaker.Retention.Window.{enforce_retention-Swept}
use oreeai_notetaker.World.{Env, World}
use oreeai_notetaker.Runner.Effects.{fate, fate_found}
use oreeai_notetaker.Runner.Settles.{put_self}
use oreeai_notetaker.Runner.Safe.{Follows, fate-inv}

-- A flush that leaves the status.
pub put-Follows :
    (i : ℕ) (c c' : Call) (t : Table)
    → get i t ≡ some c
    → c'.id ≡ c.id
    → c'.status ≡ c.status
    → Follows t (put c' t)
put-Follows i c c' t h id s j f e =
    let (d, found, same) = fate-inv j t f e in
    elim (ℕ_discrete i j) [
      | yes hit ↦ (
        fate_of c',
        fate_found j (put c' t) c'
            (subst (λ k. get k (put c' t) ≡ some c') hit (put_self i c c' t h id)),
        subst (StatusPath f.status) (level d found same hit) stay,
      )
      | no miss ↦ (
        f,
        fate_found j (put c' t) d
              (get-put_ne j c' t (λ q. miss (sym (q ∙ id ∙ get-id i t h))) ∙ found)
            ∙ ap some same,
        stay,
      )
    ]
  where
    level : (d : Call) → get j t ≡ some d → fate_of d ≡ f → i ≡ j → f.status ≡ c'.status
    level d found same hit =
        ap (λ g. g.status) (sym same) ∙ ap (λ x. x.status) (row d found hit) ∙ sym s
      where
        row : (d : Call) → get j t ≡ some d → i ≡ j → d ≡ c
        row d found hit = ground (arith, hit, h, found)

module _ (env : Env) where
  pub retention-Follows : (w : World) → Follows w.table (enforce_retention env w).1.table
  retention-Follows w j f e =
      let (c, found, same) = fate-inv j w.table f e in
      go c found same (enforce_retention-Swept env w j)
    where
      go :
          (c : Call)
          → get j w.table ≡ some c
          → fate_of c ≡ f
          → Swept (get j w.table) (get j (enforce_retention env w).1.table)
          → (f' : Fate) × (fate j (enforce_retention env w).1.table ≡ some f')
            × StatusPath f.status f'.status
      go c found same (untouched u) = (f, fate_found j _ c (u ∙ found) ∙ ap some same, stay)
      go c found same (cleared d now u v) = (
        fate_of (record d { audio_url = none; updated_at = now }),
        fate_found j _ _ v,
        subst (StatusPath f.status) (level c d same (sym found ∙ u)) stay,
      )
        where
          level : (c d : Call) → fate_of c ≡ f → some c ≡ some d → f.status ≡ d.status
          level c d same eq = ap (λ g. g.status) (sym same) ∙ ground (arith, eq)
