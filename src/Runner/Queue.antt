-- ===== src/Runner/Queue.antt =====
-- Which call a poll takes (src/oreeai_notetaker/workers/bot_runner.py).
use native.Mathlib.Decide.{ℕ_discrete}
use oreeai_notetaker.Prelude.{
  ℕ, ◌≡◌, ◌⊎◌, sym, subst, Bool, true, false, [], ◌∷◌, Option, none, some, arith, inl, inr,
  Bool-cases,
}
use oreeai_notetaker.Call.{Call, Table, get}
use oreeai_notetaker.Retention.Window.{IsKeyed}
use oreeai_notetaker.Runner.Poll.{is_before, is_waiting, first_of, next_queued}

-- What the SELECT gives: a waiting call that comes before every other one, or none if there is none.
abbrev pub IsNext : (ℕ → Bool) → Table → Option Call → Type 0
IsNext locked t none = (j : ℕ) (d : Call) → get j t ≡ some d → is_waiting locked d ≡ false
IsNext locked t (some c) =
    (get c.id t ≡ some c)
    × (is_waiting locked c ≡ true)
    × ((j : ℕ) (d : Call) → get j t ≡ some d → is_waiting locked d ≡ true → is_before c d ≡ true)

is_before_trans :
    (a b c : Call) → is_before a b ≡ true → is_before b c ≡ true → is_before a c ≡ true
is_before_trans a b c h k = ground arith

is_before_total : (a b : Call) → is_before a b ≡ false → is_before b a ≡ true
is_before_total a b h = ground arith

is_before_refl : (a : Call) → is_before a a ≡ true
is_before_refl a = ground arith

module _ (x : Call) (t : Table) where
  get_tail : (j : ℕ) (d : Call) → get x.id t ≡ none → get j t ≡ some d → get j (x ∷ t) ≡ some d
  get_tail j d fresh h = elim (ℕ_discrete x.id j) [
    | yes hit ↦ absurd (clash (subst (λ k. get k t ≡ none) hit fresh))
    | no miss ↦ ground (arith, miss)
  ]
    where
      clash : get j t ≡ none → ⊥
      clash e = cc

  get_cases : (j : ℕ) (d : Call) → get j (x ∷ t) ≡ some d → (x ≡ d) ⊎ (get j t ≡ some d)
  get_cases j d h = elim (ℕ_discrete x.id j) [
    | yes hit ↦ inl (ground (arith, hit))
    | no miss ↦ inr (ground (arith, miss))
  ]

  -- A row that does not wait changes nothing.
  skipped-IsNext :
      (locked : ℕ → Bool) (o : Option Call)
      → get x.id t ≡ none
      → is_waiting locked x ≡ false
      → IsNext locked t o
      → IsNext locked (x ∷ t) o
  skipped-IsNext locked none fresh idle h = λ j d e. elim (get_cases j d e) [
    | inl same ↦ subst (λ y. is_waiting locked y ≡ false) same idle
    | inr there ↦ h j d there
  ]
  skipped-IsNext locked (some c) fresh idle (there, waits, least) = (
    get_tail c.id c fresh there,
    waits,
    λ j d e w. elim (get_cases j d e) [
      | inl same ↦ absurd (clash d same w)
      | inr found ↦ least j d found w
    ],
  )
    where
      clash : (d : Call) → x ≡ d → is_waiting locked d ≡ true → ⊥
      clash d same w = waking (subst (λ y. is_waiting locked y ≡ true) (sym same) w)
        where
          waking : is_waiting locked x ≡ true → ⊥
          waking y = cc

  -- A row that waits is compared with the first of the others.
  first-IsNext :
      (locked : ℕ → Bool) (o : Option Call)
      → get x.id t ≡ none
      → is_waiting locked x ≡ true
      → IsNext locked t o
      → IsNext locked (x ∷ t) (first_of x o)
  first-IsNext locked none fresh waits h = (
    ground arith,
    waits,
    λ j d e w. elim (get_cases j d e) [
      | inl same ↦ subst (λ y. is_before x y ≡ true) same (is_before_refl x)
      | inr there ↦ absurd (clash d (h j d there) w)
    ],
  )
    where
      clash : (d : Call) → is_waiting locked d ≡ false → is_waiting locked d ≡ true → ⊥
      clash d a b = cc
  first-IsNext locked (some c) fresh waits (there, w, least) = elim (Bool-cases (is_before x c)) [
    | inl before ↦ rw before (
      ground arith,
      waits,
      λ j d e v. elim (get_cases j d e) [
        | inl same ↦ subst (λ y. is_before x y ≡ true) same (is_before_refl x)
        | inr found ↦ is_before_trans x c d before (least j d found v)
      ],
    )
    | inr after ↦ rw after (
      get_tail c.id c fresh there,
      w,
      λ j d e v. elim (get_cases j d e) [
        | inl same ↦ subst (λ y. is_before c y ≡ true) same (is_before_total x c after)
        | inr found ↦ least j d found v
      ],
    )
  ]

-- A poll takes the call that was created first (of two that were created at the same moment, the one
-- with the smaller id) among the queued calls whose rows nobody holds, and none if there is none.
pub next_queued-IsNext :
    (locked : ℕ → Bool) (t : Table) → IsKeyed t → IsNext locked t (next_queued locked t)
unfolding next_queued
next_queued-IsNext locked [] k = λ j d h. cc
next_queued-IsNext locked (x ∷ t) k = elim (Bool-cases (is_waiting locked x)) [
  | inl waits ↦
      rw (next_queued, waits)
        (first-IsNext x t locked (next_queued locked t) k.0 waits (next_queued-IsNext locked t k.1))
  | inr idle ↦
      rw (next_queued, idle)
        (skipped-IsNext x t locked (next_queued locked t) k.0 idle
          (next_queued-IsNext locked t k.1))
]
