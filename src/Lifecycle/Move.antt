-- ===== src/Lifecycle/Move.antt =====
-- What one transition of a call does, against the edges of the lifecycle (README.md, Call
-- lifecycle): src/oreeai_notetaker/services/call.py.
use oreeai_notetaker.Prelude.{
  ℕ, ◌≡◌, refl, ◌≢◌, ◌↔◌, ◌⊎◌, inl, inr, true, false, List, none, some, arith, Bool-cases,
  Option-cases, sym, ◌∙◌, subst,
}
use oreeai_notetaker.Call.{
  CallStatus, queued, joining, recording, processing, done, failed, is_active, status_in, Call,
  Change, Table, get, put, updated, id-set_attrs, status-set_attrs, get-id, get-put_self,
  get-put_ne,
}
use oreeai_notetaker.Errors.{AppError, not_found, illegal_transition, ok, err}
use oreeai_notetaker.Schema.{model_validate}
use oreeai_notetaker.Lifecycle.{legal_transitions, move}

-- The edges of the lifecycle.
pub data Edge : CallStatus → CallStatus → Type 0 where
  join : Edge queued joining
  start_recording : Edge joining recording
  process : Edge recording processing
  finish : Edge processing done
  fail : {s : CallStatus} → is_active s ≡ true → Edge s failed

-- `_LEGAL_TRANSITIONS` allows a status after another exactly if the lifecycle has that edge.
pub legal_iff : (a b : CallStatus) → (status_in b (legal_transitions a) ≡ true) ↔ Edge a b
legal_iff a b = (to a b, from)
  where
    to : (a b : CallStatus) → status_in b (legal_transitions a) ≡ true → Edge a b
    to queued joining h = join
    to joining recording h = start_recording
    to recording processing h = process
    to processing done h = finish
    to queued failed h = fail refl
    to joining failed h = fail refl
    to recording failed h = fail refl
    to processing failed h = fail refl
    to _ _ h = cc

    from : {a b : CallStatus} → Edge a b → status_in b (legal_transitions a) ≡ true
    from join = refl
    from start_recording = refl
    from process = refl
    from finish = refl
    from {a} (fail h) = ground arith

-- The row that a transition leaves.
abbrev pub moved : ℕ → CallStatus → List Change → Call → Call
moved now new changes c = updated now (some new) changes c

module _ (now i : ℕ) (new : CallStatus) (changes : List Change) (t : Table) where
  -- A call that is not there is reported and nothing is written.
  pub move_missing : get i t ≡ none → move now i new changes t ≡ err (not_found i)
  unfolding move
  move_missing h = ground arith

  pub move_refused :
      (c : Call)
      → get i t ≡ some c
      → status_in new (legal_transitions c.status) ≡ false
      → move now i new changes t ≡ err (illegal_transition c.status new)
  unfolding move
  move_refused c h e = ground arith

  pub move_accepted :
      (c : Call)
      → get i t ≡ some c
      → status_in new (legal_transitions c.status) ≡ true
      → move now i new changes t
        ≡ ok (model_validate (moved now new changes c), put (moved now new changes c) t)
  unfolding move
  move_accepted c h e = ground arith

  -- A transition is refused and nothing is written, or it follows an edge.
  pub move_cases :
      ((e : AppError) × (move now i new changes t ≡ err e))
      ⊎ ((c : Call) × (get i t ≡ some c)
          × (status_in new (legal_transitions c.status) ≡ true)
          × (move now i new changes t
              ≡ ok (model_validate (moved now new changes c), put (moved now new changes c) t)))
  move_cases = elim (Option-cases (get i t)) [
    | inl missing ↦ inl (not_found i, move_missing missing)
    | inr (c, found) ↦ elim (Bool-cases (status_in new (legal_transitions c.status))) [
      | inl legal ↦ inr (c, found, legal, move_accepted c found legal)
      | inr illegal ↦ inl (illegal_transition c.status new, move_refused c found illegal)
    ]
  ]

pub id-moved :
    (now : ℕ) (new : CallStatus) (changes : List Change) (c : Call)
    → (moved now new changes c).id ≡ c.id
id-moved now new changes c = id-set_attrs changes (record c { status = new })

pub status-moved :
    (now : ℕ) (new : CallStatus) (changes : List Change) (c : Call)
    → (moved now new changes c).status ≡ new
status-moved now new changes c = status-set_attrs changes (record c { status = new })

-- The tables that differ from `t` in the row of `i` at most.
abbrev pub SameOthers : ℕ → Table → Table → Type 0
SameOthers i t t' = (j : ℕ) → j ≢ i → get j t' ≡ get j t

-- An accepted transition rewrites the one row.
pub put-moved :
    (now i : ℕ) (new : CallStatus) (changes : List Change) (t : Table) (c : Call)
    → get i t ≡ some c
    → (get i (put (moved now new changes c) t) ≡ some (moved now new changes c))
      × SameOthers i t (put (moved now new changes c) t)
put-moved now i new changes t c h = (self, others)
  where
    same : (moved now new changes c).id ≡ i
    same = id-moved now new changes c ∙ get-id i t h

    self : get i (put (moved now new changes c) t) ≡ some (moved now new changes c)
    self =
        subst (λ k. get k (put (moved now new changes c) t) ≡ some (moved now new changes c)) same
          (get-put_self (moved now new changes c) t {old = c}
            (subst (λ k. get k t ≡ some c) (sym same) h))

    others : SameOthers i t (put (moved now new changes c) t)
    others j ne = get-put_ne j (moved now new changes c) t (λ e. ne (e ∙ same))
