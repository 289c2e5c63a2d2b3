-- ===== src/Call/Repository.antt =====
-- src/oreeai_notetaker/repositories: the table of calls and the statements on it. A statement runs
-- inside a transaction; its `func.now()` is an argument.
use oreeai_notetaker.Prelude.{
  ℕ, ◌+◌, ◌≡◌, refl, ◌≢◌, inl, inr, subst, Bool, Bool-cases, List, [], ◌∷◌, ◌++◌, Option, none,
  some, arith, ◌==◌, if◌then◌else◌,
}
use oreeai_notetaker.Call.Status.{CallStatus, is_active}
use oreeai_notetaker.Call.Row.{Call, Change, set_attrs, set_status}

abbrev pub Table : Type 0
Table = List Call

-- `session.get(Call, id)`
abbrev pub get : ℕ → Table → Option Call
get i [] = none
get i (c ∷ t) = if c.id == i then some c else get i t

-- The UPDATE that a flush of `c` emits.
abbrev pub put : Call → Table → Table
put c [] = []
put c (x ∷ t) = if x.id == c.id then c ∷ t else x ∷ put c t

-- `session.add`, then a flush: the INSERT.
abbrev pub create : Call → Table → Table
create c t = t ++ c ∷ []

-- The object after `BaseRepository.update`: the fields that are given, and `onupdate=func.now()`.
abbrev pub updated : ℕ → Option CallStatus → List Change → Call → Call
updated now new changes c = record (set_attrs changes (set_status new c)) { updated_at = now }

-- `BaseRepository.update`
abbrev pub update : ℕ → Call → Option CallStatus → List Change → Table → Call × Table
update now c new changes t = (updated now new changes c, put (updated now new changes c) t)

abbrev pub count_one : Bool → ℕ
count_one b = if b then 1 else 0

-- `CallRepository.count_active`
abbrev pub count_active : Table → ℕ
count_active [] = 0
count_active (c ∷ t) = count_one (is_active c.status) + count_active t

pub id-set_attrs : (xs : List Change) (c : Call) → (set_attrs xs c).id ≡ c.id
id-set_attrs [] c = refl
id-set_attrs (Change.set_failure_reason r ∷ xs) c = id-set_attrs xs _
id-set_attrs (Change.set_end_reason r ∷ xs) c = id-set_attrs xs _
id-set_attrs (Change.set_audio_url u ∷ xs) c = id-set_attrs xs _
id-set_attrs (Change.set_bot_container_name n ∷ xs) c = id-set_attrs xs _
id-set_attrs (Change.set_transcript s ∷ xs) c = id-set_attrs xs _

-- No entry but `status` writes the status.
pub status-set_attrs : (xs : List Change) (c : Call) → (set_attrs xs c).status ≡ c.status
status-set_attrs [] c = refl
status-set_attrs (Change.set_failure_reason r ∷ xs) c = status-set_attrs xs _
status-set_attrs (Change.set_end_reason r ∷ xs) c = status-set_attrs xs _
status-set_attrs (Change.set_audio_url u ∷ xs) c = status-set_attrs xs _
status-set_attrs (Change.set_bot_container_name n ∷ xs) c = status-set_attrs xs _
status-set_attrs (Change.set_transcript s ∷ xs) c = status-set_attrs xs _

pub get-id : (i : ℕ) (t : Table) {c : Call} → get i t ≡ some c → c.id ≡ i
get-id i [] h = ground arith
get-id i (x ∷ t) {c} h = ground (arith, get-id i t {c = c})

pub get-put_self :
    (c : Call) (t : Table) {old : Call} → get c.id t ≡ some old → get c.id (put c t) ≡ some c
get-put_self c [] h = ground arith
get-put_self c (x ∷ t) {old} h = ground (arith, get-put_self c t {old = old})

pub get-put_ne : (i : ℕ) (c : Call) (t : Table) → i ≢ c.id → get i (put c t) ≡ get i t
get-put_ne i c [] h = refl
get-put_ne i c (x ∷ t) h = ground (arith, get-put_ne i c t)

pub get-create :
    (i : ℕ) (c : Call) (t : Table)
    → get i t ≡ none
    → get i (create c t) ≡ (if c.id == i then some c else none)
get-create i c [] h = refl
get-create i c (x ∷ t) h = ground (arith, get-create i c t)

-- A flush replaces one row, so it moves the count by that row alone.
pub count_active-put :
    (c : Call) (t : Table) (old : Call)
    → get c.id t ≡ some old
    → count_active (put c t) + count_one (is_active old.status)
      ≡ count_active t + count_one (is_active c.status)
count_active-put c [] old h = ground arith
count_active-put c (x ∷ t) old h = ground (arith, count_active-put c t old)

pub count_active-create :
    (c : Call) (t : Table)
    → count_active (create c t) ≡ count_active t + count_one (is_active c.status)
count_active-create c [] = omega arith
count_active-create c (x ∷ t) = omega (arith, count_active-create c t)

-- An INSERT hides no row.
pub get-create_old :
    (i : ℕ) (x : Call) (t : Table) (c : Call) → get i t ≡ some c → get i (create x t) ≡ some c
get-create_old i x [] c h = ground arith
get-create_old i x (y ∷ t) c h = ground (arith, get-create_old i x t c)

-- `P` holds of each row.
abbrev pub AllRows {ℓ} : (Call → Type ℓ) → Table → Type ℓ
AllRows P [] = Unit
AllRows P (c ∷ t) = P c × AllRows P t

pub AllRows-get {ℓ} :
    (P : Call → Type ℓ) (i : ℕ) (t : Table) (c : Call) → AllRows P t → get i t ≡ some c → P c
AllRows-get P i [] c h e = cc
AllRows-get P i (x ∷ t) c h e = elim (Bool-cases (x.id == i)) [
  | inl hit ↦ subst P (ground arith) h.0
  | inr miss ↦ AllRows-get P i t c h.1 (ground arith)
]

pub AllRows-put {ℓ} :
    (P : Call → Type ℓ) (c : Call) (t : Table) → AllRows P t → P c → AllRows P (put c t)
AllRows-put P c [] h p = tt
AllRows-put P c (x ∷ t) h p = elim (Bool-cases (x.id == c.id)) [
  | inl hit ↦ rw hit (p, h.1)
  | inr miss ↦ rw miss (h.0, AllRows-put P c t h.1 p)
]

pub AllRows-create {ℓ} :
    (P : Call → Type ℓ) (c : Call) (t : Table) → AllRows P t → P c → AllRows P (create c t)
AllRows-create P c [] h p = (p, tt)
AllRows-create P c (x ∷ t) h p = (h.0, AllRows-create P c t h.1 p)
