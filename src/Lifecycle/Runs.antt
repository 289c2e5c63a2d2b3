-- ===== src/Lifecycle/Runs.antt =====
-- Any sequence of transactions of `CallService` (src/oreeai_notetaker/services/call.py), by any
-- number of tasks: each runs on the table that the one before it committed, and one that raises is
-- rolled back (api/deps.py `get_db`, and each `except ConflictError` of workers/bot_runner.py).
use oreeai_notetaker.Prelude.{
  ℕ, ◌≤◌, ◌<◌, ◌≡◌, inl, inr, true, List, [], ◌∷◌, Option, some, String, arith, leb, Bool-cases,
  subst, sym, ◌∙◌, ap,
}
use oreeai_notetaker.Call.{
  CallStatus, joining, recording, processing, done, failed, is_active, status_in, Call, Change,
  SpeakerSegment, Table, get, put, create, count_active, count_one, get-id, count_active-put,
  count_active-create,
}
use oreeai_notetaker.Errors.{Result, ok, err}
use oreeai_notetaker.Schema.{CallCreate, CallRead}
use oreeai_notetaker.Lifecycle.{
  legal_transitions, move, update_status, mark_bot_started, mark_recording, mark_processing,
  mark_done, mark_failed, new_call, create_call,
}
use oreeai_notetaker.Lifecycle.Move.{move_cases, moved, id-moved, status-moved}

-- A method call with its arguments.
pub data Request : Type 0 where
  creation : ℕ → CallCreate → Request
  status_update : ℕ → CallStatus → Option String → Option String → Request
  bot_started : ℕ → String → Request
  recording_begun processing_begun : ℕ → Request
  call_done : ℕ → String → Option (List SpeakerSegment) → Option String → Request
  call_failed : ℕ → String → Request

-- One transaction: what is requested, and its `func.now()`.
unfoldable pub perform : ℕ → ℕ → Request → Table → Result (CallRead × Table)
perform limit now (creation i data') t = create_call limit now i data' t
perform limit now (status_update i new e f) t = update_status now i new e f t
perform limit now (bot_started i name) t = mark_bot_started now i name t
perform limit now (recording_begun i) t = mark_recording now i t
perform limit now (processing_begun i) t = mark_processing now i t
perform limit now (call_done i e s u) t = mark_done now i e s u t
perform limit now (call_failed i r) t = mark_failed now i r t

-- Commit, or roll back.
abbrev pub after : Table → Result (CallRead × Table) → Table
after t (ok (_, t')) = t'
after t (err _) = t

unfoldable pub step : ℕ → Table → ℕ × Request → Table
unfolding perform
step limit t (now, r) = after t (perform limit now r t)

unfoldable pub run : ℕ → Table → List (ℕ × Request) → Table
run limit t [] = t
run limit t (r ∷ rs) = run limit (step limit t r) rs

-- How a transaction can change a table: not at all, by a new queued row, or along one edge.
pub data Changed (limit : ℕ) (t t' : Table) : Type 0 where
  kept : t' ≡ t → Changed limit t t'
  created :
      (now i : ℕ) (d : CallCreate)
      → count_active t < limit
      → t' ≡ create (new_call now i d) t
      → Changed limit t t'
  advanced :
      (now i : ℕ) (new : CallStatus) (changes : List Change) (c : Call)
      → get i t ≡ some c
      → status_in new (legal_transitions c.status) ≡ true
      → t' ≡ put (moved now new changes c) t
      → Changed limit t t'

pub move-Changed :
    (limit now i : ℕ) (new : CallStatus) (changes : List Change) (t : Table)
    → Changed limit t (after t (move now i new changes t))
move-Changed limit now i new changes t = elim (move_cases now i new changes t) [
  | inl (e, refused) ↦ kept (ap (after t) refused)
  | inr (c, found, legal, accepted) ↦
      advanced now i new changes c found legal (ap (after t) accepted)
]

pub step-Changed : (limit : ℕ) (t : Table) (r : ℕ × Request) → Changed limit t (step limit t r)
unfolding step create_call
step-Changed limit t (now, creation i d) = elim (Bool-cases (leb limit (count_active t))) [
  | inl full ↦ kept (ground arith)
  | inr room ↦ created now i d (ground arith) (ground arith)
]
step-Changed limit t (now, status_update i new e f) = move-Changed limit now i new _ t
step-Changed limit t (now, bot_started i name) = move-Changed limit now i joining _ t
step-Changed limit t (now, recording_begun i) = move-Changed limit now i recording _ t
step-Changed limit t (now, processing_begun i) = move-Changed limit now i processing _ t
step-Changed limit t (now, call_done i e s u) = move-Changed limit now i done _ t
step-Changed limit t (now, call_failed i r) = move-Changed limit now i failed _ t

-- The ceiling: an edge never leads back into an active status, so the count falls or stays.
count_one_falls :
    (a b : CallStatus)
    → status_in b (legal_transitions a) ≡ true
    → count_one (is_active b) ≤ count_one (is_active a)
count_one_falls a b h = ground arith

pub Changed-count_active :
    {limit : ℕ} {t t' : Table}
    → Changed limit t t'
    → count_active t ≤ limit
    → count_active t' ≤ limit
Changed-count_active {limit} (kept e) h = subst (λ u. count_active u ≤ limit) (sym e) h
Changed-count_active {limit} {t} (created now i d room e) h =
    subst (λ u. count_active u ≤ limit) (sym e)
      (omega (arith, count_active-create (new_call now i d) t))
Changed-count_active {limit} {t} (advanced now i new changes c found legal e) h =
    subst (λ u. count_active u ≤ limit) (sym e)
      (omega (arith, count_active-put (moved now new changes c) t c present, falls))
  where
    falls : count_one (is_active (moved now new changes c).status) ≤ count_one (is_active c.status)
    falls =
        subst (λ s. count_one (is_active s) ≤ count_one (is_active c.status))
          (sym (status-moved now new changes c)) (count_one_falls c.status new legal)

    present : get (moved now new changes c).id t ≡ some c
    present =
        subst (λ k. get k t ≡ some c) (sym (id-moved now new changes c ∙ get-id i t found)) found
