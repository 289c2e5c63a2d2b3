-- ===== src/Runner/Safe.antt =====
-- Actions after which each call is still there, with a status that the lifecycle's diagram leads to
-- (README.md, Call lifecycle): what they are put together from (src/oreeai_notetaker/workers/).
use oreeai_notetaker.Prelude.{
  ℕ, ◌≡◌, refl, ◌∙◌, ap, subst, Bool, true, false, List, none, some, arith, Option-cases, inl, inr,
  if◌then◌else◌,
}
use oreeai_notetaker.Call.{CallStatus, Call, Change, Table, get, Fate, fate_of}
use oreeai_notetaker.Errors.{Result, ok, err}
use oreeai_notetaker.Schema.{CallRead}
use oreeai_notetaker.Lifecycle.{move}
use oreeai_notetaker.Lifecycle.Runs.{after, Changed, move-Changed}
use oreeai_notetaker.Lifecycle.History.{Changed-Kept, StatusPath, stay, along, Kept-StatusPath}
use oreeai_notetaker.World.{
  Env, World, Outcome, returned, threw, crashed, Action, Body, transact, nothing_more, ◌>>=◌,
}
use oreeai_notetaker.Runner.Effects.{fate, fate_found, SameFates, dispatch_webhook-SameFates}
use oreeai_notetaker.Runner.Exit.{dispatch, if_committed}

-- Each call of `t` is in `t'`, further along the diagram or where it was.
abbrev pub Follows : Table → Table → Type 0
Follows t t' =
    (j : ℕ) (f : Fate)
    → fate j t ≡ some f
    → (f' : Fate) × (fate j t' ≡ some f') × StatusPath f.status f'.status

pub StatusPath-trans : {a b c : CallStatus} → StatusPath a b → StatusPath b c → StatusPath a c
StatusPath-trans stay q = q
StatusPath-trans (along e p) q = along e (StatusPath-trans p q)

pub Follows-refl : (t : Table) → Follows t t
Follows-refl t j f e = (f, e, stay)

pub Follows-trans : (t u v : Table) → Follows t u → Follows u v → Follows t v
Follows-trans t u v p q j f e =
    let (g, e', s) = p j f e in let (h, e'', s') = q j g e' in (h, e'', StatusPath-trans s s')

pub same-Follows : (t u : Table) → SameFates t u → Follows t u
same-Follows t u h j f e = (f, h j ∙ e, stay)

pub fate-inv :
    (j : ℕ) (t : Table) (f : Fate)
    → fate j t ≡ some f
    → (c : Call) × (get j t ≡ some c) × (fate_of c ≡ f)
unfolding fate
fate-inv j t f e = elim (Option-cases (get j t)) [
  | inl missing ↦ absurd (gone missing)
  | inr (c, found) ↦ (c, found, ground arith)
]
  where
    gone : get j t ≡ none → ⊥
    gone missing = ground arith

-- One transaction of the call service.
pub Changed-Follows : (limit : ℕ) (t t' : Table) → Changed limit t t' → Follows t t'
Changed-Follows limit t t' h j f e =
    let (c, found, same_fate) = fate-inv j t f e in
    let (c', found', k) = Changed-Kept j c h found in
    (
      fate_of c',
      fate_found j t' c' found',
      subst (λ s. StatusPath s c'.status) (ap (λ g. g.status) same_fate) (Kept-StatusPath k stay),
    )

abbrev pub Safe : {A : Type 0} → Action A → Type 0
Safe m = (w : World) → Follows w.table (m w).1.table

pub after-Safe :
    {A B : Type 0} (f : A → Action B) (t : Table) (w : World) (out : Outcome A × World)
    → ((a : A) → Safe (f a))
    → Follows t out.1.table
    → Follows t (((λ _. out) >>= f) w).1.table
after-Safe f t w (returned a, w₁) q h = Follows-trans t w₁.table (f a w₁).1.table h (q a w₁)
after-Safe f t w (threw e, w₁) q h = h
after-Safe f t w (crashed, w₁) q h = h

pub bind-Safe :
    {A B : Type 0} (m : Action A) (f : A → Action B)
    → Safe m
    → ((a : A) → Safe (f a))
    → Safe (m >>= f)
bind-Safe m f p q w = after-Safe f w.table w (m w) q (p w)

pub nothing-Safe : Safe nothing_more
nothing-Safe w = Follows-refl w.table

pub if-Safe : {A : Type 0} (b : Bool) (m n : Action A) → Safe m → Safe n → Safe (if b then m else n)
if-Safe true m n p q = p
if-Safe false m n p q = q

pub dispatch-Safe : (env : Env) (i : ℕ) → Safe (dispatch env i)
dispatch-Safe env i w = same-Follows w.table _ (dispatch_webhook-SameFates env i w)

-- A transaction whose body leads along the diagram.
abbrev pub Leads : Body → Type 0
Leads body = (now : ℕ) (t : Table) → Follows t (after t (body now t))

pub transact-Safe : (env : Env) (body : Body) → Leads body → Safe (transact env body)
unfolding transact
transact-Safe env body h w = go (body (env.func_now w.tick) w.table) refl
  where
    go :
        (r : Result (CallRead × Table))
        → body (env.func_now w.tick) w.table ≡ r
        → Follows w.table (transact env body w).1.table
    go (ok (_, t)) e =
        rw (transact, e)
          (subst (λ r. Follows w.table (after w.table r)) e (h (env.func_now w.tick) w.table))
    go (err x) e = rw (transact, e) (Follows-refl w.table)

pub move-Leads :
    (i : ℕ) (new : CallStatus) (changes : List Change) → Leads (λ now. move now i new changes)
move-Leads i new changes now t = Changed-Follows 0 t _ (move-Changed 0 now i new changes t)

pub if_committed-Safe :
    (m : Action Bool) (k : Action (Unit {0})) → Safe m → Safe k → Safe (if_committed m k)
if_committed-Safe m k p q =
    bind-Safe m (λ committed. elim committed [ true ↦ k | false ↦ nothing_more ]) p (λ b. go b)
  where
    go : (b : Bool) → Safe (elim b as (λ _. Action (Unit {0})) [ true ↦ k | false ↦ nothing_more ])
    go true = q
    go false = nothing-Safe
