-- ===== src/Retention/Sweep.antt =====
-- What one retention sweep does to the calls (src/oreeai_notetaker/workers/retention.py).
use native.Mathlib.Decide.{ℕ_discrete}
use oreeai_notetaker.Prelude.{
  ℕ, ◌≡◌, refl, ◌≢◌, ◌⊎◌, inl, inr, ◌∙◌, sym, subst, true, false, List, [], ◌∷◌, Option, none, some,
  arith, contains, Option-cases,
}
use oreeai_notetaker.Call.{Call, Table, get, put, get-id, get-put_self, get-put_ne}
use oreeai_notetaker.Storage.{ObjectStorageClient, stored}
use oreeai_notetaker.World.{Env, World}
use oreeai_notetaker.Retention.{clear_audio, reclaim, count_reclaimed, reclaim_all}

-- A row before and after: as it was, or without its audio's URI and with a new `updated_at`.
pub data Swept (o o' : Option Call) : Type 0 where
  untouched : o' ≡ o → Swept o o'
  cleared :
      (c : Call) (now : ℕ)
      → o ≡ some c
      → o' ≡ some (record c { audio_url = none; updated_at = now })
      → Swept o o'

Swept-trans : {o p q : Option Call} → Swept o p → Swept p q → Swept o q
Swept-trans (untouched e) (untouched f) = untouched (f ∙ e)
Swept-trans (untouched e) (cleared c now f g) = cleared c now (sym e ∙ f) g
Swept-trans (cleared c now e f) (untouched g) = cleared c now e (g ∙ f)
Swept-trans (cleared c now e f) (cleared d later g h) = cleared c later e (ground arith)

clear_audio-Swept : (now i : ℕ) (t : Table) (j : ℕ) → Swept (get j t) (get j (clear_audio now i t))
unfolding clear_audio
clear_audio-Swept now i t j = elim (Option-cases (get i t)) [
  | inl missing ↦ rw (missing, clear_audio) (untouched refl)
  | inr (c, found) ↦
      rw (found, clear_audio)
        (elim (ℕ_discrete j i) [
          | yes hit ↦ cleared c now (rw hit found) (at c found hit)
          | no miss ↦ untouched (get-put_ne j _ t (λ e. miss (e ∙ get-id i t found)))
        ])
]
  where
    at :
        (c : Call)
        → get i t ≡ some c
        → j ≡ i
        → get j (put (record c { audio_url = none; updated_at = now }) t)
          ≡ some (record c { audio_url = none; updated_at = now })
    at c found hit =
        subst
          (λ k.
            get k (put (record c { audio_url = none; updated_at = now }) t)
            ≡ some (record c { audio_url = none; updated_at = now }))
          (get-id i t found ∙ sym hit)
          (get-put_self (record c { audio_url = none; updated_at = now }) t {old = c}
            (subst (λ k. get k t ≡ some c) (sym (get-id i t found)) found))

clear_audio_ne : (now i : ℕ) (t : Table) (j : ℕ) → j ≢ i → get j (clear_audio now i t) ≡ get j t
unfolding clear_audio
clear_audio_ne now i t j ne = elim (Option-cases (get i t)) [
  | inl missing ↦ rw (missing, clear_audio)
  | inr (c, found) ↦ rw (found, clear_audio) (get-put_ne j _ t (λ e. ne (e ∙ get-id i t found)))
]

-- The row is there, and has no audio.
abbrev pub IsBare : Option Call → Type 0
IsBare none = ⊥
IsBare (some c) = c.audio_url ≡ none

Swept-IsBare : {o o' : Option Call} → Swept o o' → IsBare o → IsBare o'
Swept-IsBare (untouched e) h = subst IsBare (sym e) h
Swept-IsBare (cleared c now e f) h = subst IsBare (sym f) refl

module _ (env : Env) (client : ObjectStorageClient) where
  -- A round leaves the table, or clears the one row.
  reclaim_cases :
      (i : ℕ) (w : World)
      → ((reclaim env client i w).1.table ≡ w.table)
        ⊎ ((reclaim env client i w).1.table ≡ clear_audio (env.func_now w.tick) i w.table)
  unfolding reclaim
  reclaim_cases i w = ground arith

  reclaim-Swept :
      (i : ℕ) (w : World) (j : ℕ) → Swept (get j w.table) (get j (reclaim env client i w).1.table)
  reclaim-Swept i w j = elim (reclaim_cases i w) [
    | inl e ↦ rw e (untouched refl)
    | inr e ↦ rw e (clear_audio-Swept (env.func_now w.tick) i w.table j)
  ]

  reclaim_ne :
      (i : ℕ) (w : World) (j : ℕ) → j ≢ i → get j (reclaim env client i w).1.table ≡ get j w.table
  reclaim_ne i w j ne = elim (reclaim_cases i w) [
    | inl e ↦ rw e
    | inr e ↦ rw e (clear_audio_ne (env.func_now w.tick) i w.table j ne)
  ]

  pub reclaim_all-Swept :
      (is : List ℕ) (n : ℕ) (w : World) (j : ℕ)
      → Swept (get j w.table) (get j (reclaim_all env client is n w).1.table)
  unfolding reclaim_all
  reclaim_all-Swept [] n w j = untouched refl
  reclaim_all-Swept (i ∷ is) n w j = Swept-trans (reclaim-Swept i w j) (
      reclaim_all-Swept is (count_reclaimed (reclaim env client i w).0 n) (reclaim env client i w).1
        j)

  pub reclaim_all_others :
      (is : List ℕ) (n : ℕ) (w : World) (j : ℕ)
      → contains j is ≡ false
      → get j (reclaim_all env client is n w).1.table ≡ get j w.table
  unfolding reclaim_all
  reclaim_all_others [] n w j h = refl
  reclaim_all_others (i ∷ is) n w j h =
      reclaim_all_others is (count_reclaimed (reclaim env client i w).0 n)
        (reclaim env client i w).1 j (ground arith)
      ∙ reclaim_ne i w j (ground arith)

  pub reclaim-IsBare :
      (i : ℕ) (w : World) (c : Call)
      → env.locked w.tick i ≡ false
      → client.delete_audio w.tick i ≡ stored tt
      → get i w.table ≡ some c
      → IsBare (get i (reclaim env client i w).1.table)
  unfolding reclaim clear_audio
  reclaim-IsBare i w c free deleted found = ground (
    arith,
    get-id i w.table {c = c} found,
    get-put_self (record c { audio_url = none; updated_at = env.func_now w.tick }) w.table
        {old = c},
  )

  -- Once its turn comes, an id of the list loses its audio, if its object can be deleted.
  pub reclaim_all-IsBare :
      (is : List ℕ) (n : ℕ) (w : World) (j : ℕ) (c : Call)
      → ((at : ℕ) → env.locked at j ≡ false)
      → ((at : ℕ) → client.delete_audio at j ≡ stored tt)
      → contains j is ≡ true
      → get j w.table ≡ some c
      → IsBare (get j (reclaim_all env client is n w).1.table)
  unfolding reclaim_all
  reclaim_all-IsBare [] n w j c free deleted h found = cc
  reclaim_all-IsBare (i ∷ is) n w j c free deleted h found = elim (ℕ_discrete i j) [
    | yes hit ↦
        Swept-IsBare
          (reclaim_all-Swept is (count_reclaimed (reclaim env client i w).0 n)
            (reclaim env client i w).1 j)
          (subst (λ k. IsBare (get j (reclaim env client k w).1.table)) (sym hit)
            (reclaim-IsBare j w c (free w.tick) (deleted w.tick) found))
    | no miss ↦
        reclaim_all-IsBare is (count_reclaimed (reclaim env client i w).0 n)
          (reclaim env client i w).1 j c free deleted (ground arith)
          (reclaim_ne i w j (λ e. miss (sym e)) ∙ found)
  ]
