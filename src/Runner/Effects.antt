-- ===== src/Runner/Effects.antt =====
-- What the runner's transactions and dispatches do to the table
-- (src/oreeai_notetaker/workers/bot_runner.py).
use native.Mathlib.Decide.{ℕ_discrete}
use oreeai_notetaker.Prelude.{
  ℕ, ◌≡◌, refl, inl, inr, sym, subst, Bool, true, false, List, Option, none, some, arith,
  Option-cases, is_some, not, ◌||◌, if◌then◌else◌,
}
use oreeai_notetaker.Call.{
  CallStatus, is_terminal, status_in, Call, Change, Table, get, put, Fate, fate_of, get-id,
  get-put_self, get-put_ne,
}
use oreeai_notetaker.Lifecycle.{legal_transitions, move}
use oreeai_notetaker.Lifecycle.Move.{moved, move_accepted}
use oreeai_notetaker.Webhook.Contract.{deliver_keeps}
use oreeai_notetaker.World.{Env, World, returned, transact, commit}
use oreeai_notetaker.Runner.Dispatch.{dispatch_webhook, deliver_loaded}

-- What became of the call `i`, if there is such a call.
unfoldable pub fate : ℕ → Table → Option Fate
fate i t = elim (get i t) [ none ↦ none | some c ↦ some (fate_of c) ]

pub fate_found : (i : ℕ) (t : Table) (c : Call) → get i t ≡ some c → fate i t ≡ some (fate_of c)
unfolding fate
fate_found i t c h = ground arith

-- Two tables in which every call has fared alike.
abbrev pub SameFates : Table → Table → Type 0
SameFates t t' = (j : ℕ) → fate j t' ≡ fate j t

put-SameFates :
    (c c' : Call) (t : Table)
    → get c.id t ≡ some c
    → fate_of c' ≡ fate_of c
    → c'.id ≡ c.id
    → SameFates t (put c' t)
unfolding fate
put-SameFates c c' t h same e j = elim (ℕ_discrete j c'.id) [
  | yes hit ↦
      ground (arith, hit, e, get-put_self c' t {old = c} (subst (λ k. get k t ≡ some c) (sym e) h))
  | no miss ↦ ground (arith, get-put_ne j c' t miss)
]

deliver_loaded-SameFates :
    (env : Env) (c : Call) (w : World)
    → get c.id w.table ≡ some c
    → SameFates w.table (deliver_loaded env c w).table
unfolding deliver_loaded
deliver_loaded-SameFates env c w h =
    put-SameFates c _ w.table h (deliver_keeps env.codec _ _ _ _ c).0
      (deliver_keeps env.codec _ _ _ _ c).1

-- A webhook dispatch changes no call's status, failure reason, end reason, audio URI or transcript,
-- whatever the receiver answers.
pub dispatch_webhook-SameFates :
    (env : Env) (i : ℕ) (w : World) → SameFates w.table (dispatch_webhook env i w).table
unfolding dispatch_webhook
dispatch_webhook-SameFates env i w j = elim (Option-cases (get i w.table)) [
  | inl missing ↦ rw (missing, dispatch_webhook)
  | inr (c, found) ↦
      rw (found, dispatch_webhook)
        (loaded c found (is_some c.webhook_delivered_at || not (is_terminal c.status)))
]
  where
    loaded :
        (c : Call)
        → get i w.table ≡ some c
        → (b : Bool) → fate j (if b then w else deliver_loaded env c w).table ≡ fate j w.table
    loaded c found true = refl
    loaded c found false =
        deliver_loaded-SameFates env c w
          (subst (λ k. get k w.table ≡ some c) (sym (get-id i w.table found)) found) j

-- An accepted transition is committed.
pub transact-move :
    (env : Env) (i : ℕ) (new : CallStatus) (changes : List Change) (w : World) (c : Call)
    → get i w.table ≡ some c
    → status_in new (legal_transitions c.status) ≡ true
    → transact env (λ now. move now i new changes) w
      ≡ (returned true, commit (put (moved (env.func_now w.tick) new changes c) w.table) w)
unfolding transact
transact-move env i new changes w c h legal =
    ground (arith, move_accepted (env.func_now w.tick) i new changes w.table c h legal)
