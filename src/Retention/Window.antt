-- ===== src/Retention/Window.antt =====
-- Which calls a retention sweep reclaims, and what it never does
-- (src/oreeai_notetaker/workers/retention.py).
use native.Mathlib.Decide.{ℕ_discrete}
use oreeai_notetaker.Prelude.{
  subst, ℕ, ◌≡◌, refl, Bool, true, false, ◌||◌, ◌&&◌, not, List, [], ◌∷◌, ◌++◌, none, some, arith,
  contains, ◌∙◌,
}
use oreeai_notetaker.Call.{CallStatus, done, failed, Call, Table, get}
use oreeai_notetaker.Storage.{ObjectStorageClient, stored}
use oreeai_notetaker.World.{Env, World, Built, built, misconfigured, commit}
use oreeai_notetaker.Retention.{is_expired, expired_rows, all_expired, enforce_retention}
use oreeai_notetaker.Retention.Sweep.{
  Swept, untouched, IsBare, reclaim_all-Swept, reclaim_all_others, reclaim_all-IsBare,
}

-- The primary key.
abbrev pub IsKeyed : Table → Type 0
IsKeyed [] = Unit {0}
IsKeyed (c ∷ t) = (get c.id t ≡ none) × IsKeyed t

-- The call is past the window of its status: a done one AUDIO_RETENTION_DAYS after it was last
-- written, a failed one FAILED_AUDIO_RETENTION_DAYS after; each only if it has audio.
abbrev pub is_due : Env → ℕ → Call → Bool
is_due env now c =
    is_expired done env.settings.audio_retention_days now c
    || is_expired failed env.settings.failed_audio_retention_days now c

contains-append : (j : ℕ) (xs ys : List ℕ) → contains j (xs ++ ys) ≡ contains j xs || contains j ys
contains-append j [] ys = refl
contains-append j (x ∷ xs) ys = ground (arith, contains-append j xs ys)

expired_rows_missing :
    (locked : ℕ → Bool) (status : CallStatus) (days now : ℕ) (t : Table) (j : ℕ)
    → get j t ≡ none
    → contains j (expired_rows locked status days now t) ≡ false
unfolding expired_rows
expired_rows_missing locked status days now [] j h = refl
expired_rows_missing locked status days now (x ∷ t) j h =
    ground (arith, expired_rows_missing locked status days now t j)

contains-expired_rows :
    (locked : ℕ → Bool) (status : CallStatus) (days now : ℕ) (t : Table) (j : ℕ) (c : Call)
    → IsKeyed t
    → get j t ≡ some c
    → contains j (expired_rows locked status days now t)
      ≡ is_expired status days now c && not (locked j)
unfolding expired_rows
contains-expired_rows locked status days now [] j c k h = cc
contains-expired_rows locked status days now (x ∷ t) j c k h = elim (ℕ_discrete x.id j) [
  | yes hit ↦
      let same : x ≡ c = ground arith in
      rw (← same) (
        ground (
          arith,
          hit,
          subst (λ i. contains i (expired_rows locked status days now t) ≡ false) hit
              (expired_rows_missing locked status days now t x.id k.0),
        ))
  | no miss ↦ ground (arith, contains-expired_rows locked status days now t j c k.1)
]

-- An id is on the list exactly if its call is due and no other transaction holds the row.
contains-all_expired :
    (env : Env) (w : World) (j : ℕ) (c : Call)
    → IsKeyed w.table
    → get j w.table ≡ some c
    → contains j (all_expired env w)
      ≡ is_due env (env.wall_clock w.tick) c && not (env.locked w.tick j)
unfolding all_expired
contains-all_expired env w j c k h =
    rw
      (
        contains-append,
        contains-expired_rows (env.locked w.tick) done env.settings.audio_retention_days
            (env.wall_clock w.tick) w.table j c k h,
        contains-expired_rows (env.locked w.tick) failed env.settings.failed_audio_retention_days
            (env.wall_clock w.tick) w.table j c k h,
      )
      (ground arith)

-- A sweep does at most one thing to any row: it takes out the audio's URI. Neither the status, nor
-- the transcript, nor anything else is touched but `updated_at`.
pub enforce_retention-Swept :
    (env : Env) (w : World) (j : ℕ)
    → Swept (get j w.table) (get j (enforce_retention env w).1.table)
unfolding enforce_retention
enforce_retention-Swept env w j = go env.storage refl
  where
    go :
        (b : Built ObjectStorageClient)
        → env.storage ≡ b
        → Swept (get j w.table) (get j (enforce_retention env w).1.table)
    go (misconfigured m) e = rw (e, enforce_retention) (untouched refl)
    go (built client) e =
        rw (e, enforce_retention)
          (reclaim_all-Swept env client (all_expired env w) 0 (commit w.table w) j)

-- A sweep leaves a call as it is, if it is not due (it is neither done nor failed, has no audio, or
-- its window is not over) or another transaction holds its row.
pub enforce_retention_spares :
    (env : Env) (w : World) (j : ℕ) (c : Call)
    → IsKeyed w.table
    → get j w.table ≡ some c
    → is_due env (env.wall_clock w.tick) c && not (env.locked w.tick j) ≡ false
    → get j (enforce_retention env w).1.table ≡ some c
unfolding enforce_retention
enforce_retention_spares env w j c k h spared = go env.storage refl
  where
    go :
        (b : Built ObjectStorageClient)
        → env.storage ≡ b
        → get j (enforce_retention env w).1.table ≡ some c
    go (misconfigured m) e = rw (e, enforce_retention) h
    go (built client) e =
        rw (e, enforce_retention)
          (reclaim_all_others env client (all_expired env w) 0 (commit w.table w) j
              (contains-all_expired env w j c k h ∙ spared)
            ∙ h)

-- A call that is due loses its audio in the sweep, if nobody holds the row and the storage deletes
-- the object.
pub enforce_retention-IsBare :
    (env : Env) (client : ObjectStorageClient) (w : World) (j : ℕ) (c : Call)
    → env.storage ≡ built client
    → ((at : ℕ) → env.locked at j ≡ false)
    → ((at : ℕ) → client.delete_audio at j ≡ stored tt)
    → IsKeyed w.table
    → get j w.table ≡ some c
    → is_due env (env.wall_clock w.tick) c ≡ true
    → IsBare (get j (enforce_retention env w).1.table)
unfolding enforce_retention
enforce_retention-IsBare env client w j c e free deleted k h due =
    rw (e, enforce_retention)
      (reclaim_all-IsBare env client (all_expired env w) 0 (commit w.table w) j c free deleted
        (contains-all_expired env w j c k h ∙ rw (due, free w.tick)) h)
