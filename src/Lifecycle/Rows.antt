-- ===== src/Lifecycle/Rows.antt =====
-- What a row always tells, under the requests that the API and the runner make
-- (src/oreeai_notetaker/services/call.py; `update_status` has no caller but tests).
use oreeai_notetaker.Prelude.{
  ℕ, ◌≡◌, inl, inr, true, false, List, [], ◌∷◌, none, some, arith, ◌≢◌, is_some, subst, sym,
  if◌then◌else◌, leb, Bool-cases,
}
use oreeai_notetaker.Call.{
  CallStatus, queued, joining, recording, processing, done, failed, status_in, Call, Change, Table,
  count_active, AllRows, AllRows-get, AllRows-put, AllRows-create,
}
use oreeai_notetaker.Lifecycle.{legal_transitions, move, new_call, create_call}
use oreeai_notetaker.Lifecycle.Move.{move_cases, moved}
use oreeai_notetaker.Lifecycle.Runs.{
  Request, creation, status_update, bot_started, recording_begun, processing_begun, call_done,
  call_failed, after, step, run,
}

-- Each status with the fields that explain it.
pub record IsExplained (c : Call) : Type 0 where
  -- A failed call says why, and no other call has a failure reason.
  pub failure :
      is_some c.failure_reason ≡ (if status_in c.status (failed ∷ []) then true else false)
  -- A finished call says how it ended, and no other call has an end reason.
  pub ending : is_some c.end_reason ≡ (if status_in c.status (done ∷ []) then true else false)
  -- A bot's container is named exactly from `joining` on; a call that failed may have had none.
  pub container :
      c.status ≢ failed
      → is_some c.bot_container_name ≡ (if status_in c.status (queued ∷ []) then false else true)

-- The requests that have a caller.
abbrev pub IsCalled : Request → Type 0
IsCalled (status_update i new e f) = ⊥
IsCalled _ = Unit {0}

module _ (now i : ℕ) (new : CallStatus) (changes : List Change) (t : Table) where
  -- An invariant of the rows that one method keeps.
  move-AllRows :
      (P : Call → Type 0)
      → ((c : Call)
          → P c
          → status_in new (legal_transitions c.status) ≡ true
          → P (moved now new changes c))
      → AllRows P t
      → AllRows P (after t (move now i new changes t))
  move-AllRows P keep h = elim (move_cases now i new changes t) [
    | inl (e, refused) ↦ subst (λ r. AllRows P (after t r)) (sym refused) h
    | inr (c, found, legal, accepted) ↦
        subst (λ r. AllRows P (after t r)) (sym accepted)
          (AllRows-put P (moved now new changes c) t h (keep c (AllRows-get P i t c h found) legal))
  ]

step-IsExplained :
    (limit : ℕ) (t : Table) (now : ℕ) (r : Request)
    → IsCalled r
    → AllRows IsExplained t
    → AllRows IsExplained (step limit t (now, r))
unfolding step create_call
step-IsExplained limit t now (creation i d) k h = elim (Bool-cases (leb limit (count_active t))) [
  | inl full ↦ rw full h
  | inr room ↦ rw room (AllRows-create IsExplained (new_call now i d) t h (ground arith))
]
step-IsExplained limit t now (status_update i new e f) k h = absurd k
step-IsExplained limit t now (bot_started i name) k h =
    move-AllRows now i joining _ t IsExplained (λ c p legal. ground arith) h
step-IsExplained limit t now (recording_begun i) k h =
    move-AllRows now i recording _ t IsExplained (λ c p legal. ground arith) h
step-IsExplained limit t now (processing_begun i) k h =
    move-AllRows now i processing _ t IsExplained (λ c p legal. ground arith) h
step-IsExplained limit t now (call_done i e none none) k h =
    move-AllRows now i done _ t IsExplained (λ c p legal. ground arith) h
step-IsExplained limit t now (call_done i e none (some u)) k h =
    move-AllRows now i done _ t IsExplained (λ c p legal. ground arith) h
step-IsExplained limit t now (call_done i e (some s) none) k h =
    move-AllRows now i done _ t IsExplained (λ c p legal. ground arith) h
step-IsExplained limit t now (call_done i e (some s) (some u)) k h =
    move-AllRows now i done _ t IsExplained (λ c p legal. ground arith) h
step-IsExplained limit t now (call_failed i r) k h =
    move-AllRows now i failed _ t IsExplained (λ c p legal. ground arith) h

-- Each request of the list has a caller.
abbrev pub AllCalled : List (ℕ × Request) → Type 0
AllCalled [] = Unit {0}
AllCalled ((now, r) ∷ rs) = IsCalled r × AllCalled rs

-- In any sequence of the requests that have a caller (all but `update_status`), from a table where it
-- holds, a row has a failure reason exactly if its
-- call failed, an end reason exactly if it is done, and, unless it failed, a container's name
-- exactly if it was claimed.
pub run-IsExplained :
    (limit : ℕ) (t : Table) (rs : List (ℕ × Request))
    → AllCalled rs
    → AllRows IsExplained t
    → AllRows IsExplained (run limit t rs)
unfolding run
run-IsExplained limit t [] k h = h
run-IsExplained limit t ((now, r) ∷ rs) k h =
    run-IsExplained limit (step limit t (now, r)) rs k.1 (step-IsExplained limit t now r k.0 h)
