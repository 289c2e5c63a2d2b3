-- ===== src/Bot/Timely.antt =====
-- The two deadlines of a call loop (bot/listeners.py, bot/listeners_zoom.py), by the clock.
use oreeai_notetaker.Prelude.{
  ℕ, zero, suc, ◌+◌, ◌-◌, ◌*◌, ◌≤◌, ◌<◌, ◌≡◌, ◌⊎◌, inl, inr, subst, sym, Bool, true, false, arith,
}
use oreeai_notetaker.Bot.Loop.{Timeouts, Watch}

-- When a round goes on: a bot that records does so before its deadline and stays as it is; one that
-- does not has just been admitted, or waits before its deadline.
abbrev pub Timely : Timeouts → (ℕ → ℕ) → ℕ → ℕ → Watch → Watch → Type 0
Timely timeouts clock start k w w' =
    ((w.recording_started ≡ true)
      × (w'.recording_started ≡ true)
      × (w'.admitted_at ≡ w.admitted_at)
      × (clock k < w.admitted_at + timeouts.max_record_s))
    ⊎ (((w.recording_started ≡ false) × (w'.recording_started ≡ true) × (w'.admitted_at ≡ clock k))
        ⊎ ((w.recording_started ≡ false)
            × (w'.recording_started ≡ false)
            × (clock k < start + timeouts.waiting_room_s)))

-- Where a run stands before the round `k`, if the waiting room is over by the round `J` and the
-- recording by the round `K`.
abbrev pub InTime : (ℕ → ℕ) → ℕ → ℕ → ℕ → Watch → Type 0
InTime clock J K k w =
    (k ≤ K)
    × (((w.recording_started ≡ true) × (w.admitted_at ≤ clock J))
        ⊎ ((w.recording_started ≡ false) × (k ≤ J)))

plus_zero : (n : ℕ) → n + 0 ≡ n
plus_zero n = omega arith

plus_suc : (n d : ℕ) → suc (n + d) ≡ n + suc d
plus_suc n d = omega arith

-- A clock that goes on by at least `step` in each round.
ticks :
    (clock : ℕ → ℕ) (step : ℕ)
    → ((n : ℕ) → clock n + step ≤ clock (suc n))
    → (i d : ℕ) → clock i + d * step ≤ clock (i + d)
ticks clock step on i zero =
    subst (λ n. clock i + 0 * step ≤ clock n) (sym (plus_zero i)) (same (clock i))
  where
    same : (c : ℕ) → c + 0 * step ≤ c
    same c = omega arith
ticks clock step on i (suc d) =
    subst (λ n. clock i + suc d * step ≤ clock n) (plus_suc i d)
      (both (clock i) (clock (i + d)) (clock (suc (i + d))) (ticks clock step on i d) (on (i + d)))
  where
    both : (a b c : ℕ) → a + d * step ≤ b → b + step ≤ c → a + suc d * step ≤ c
    both a b c h k = grind (arith, h, k)

clock_later :
    (clock : ℕ → ℕ) → ((n : ℕ) → clock n ≤ clock (suc n)) → (i j : ℕ) → i ≤ j → clock i ≤ clock j
clock_later clock on i j h =
    subst (λ n. clock i ≤ clock n) (split h)
      (less (clock i) (clock (i + (j - i)))
        (ticks clock 0 (λ n. zero_step (clock n) _ (on n)) i (j - i)))
  where
    split : i ≤ j → i + (j - i) ≡ j
    split h = omega (arith, h)

    less : (a b : ℕ) → a + (j - i) * 0 ≤ b → a ≤ b
    less a b h = omega (arith, h)

    zero_step : (a b : ℕ) → a ≤ b → a + 0 ≤ b
    zero_step a b h = omega (arith, h)

clash : {b : Bool} → b ≡ true → b ≡ false → ⊥
clash h k = cc

module _ (timeouts : Timeouts) (clock : ℕ → ℕ) (start J K : ℕ)
    (on : (n : ℕ) → clock n ≤ clock (suc n)) (waited : start + timeouts.waiting_room_s ≤ clock J)
    (before : J < K) (recorded : clock J + timeouts.max_record_s ≤ clock K) where
  -- The clock has not reached the round `j`, so neither have the rounds.
  not_yet : (k j : ℕ) → clock k < clock j → k < j
  not_yet k j h = elim (order j k) [
    | inl le ↦ absurd (gone (clock_later clock on j k le))
    | inr lt ↦ lt
  ]
    where
      order : (a b : ℕ) → (a ≤ b) ⊎ (b < a)
      order a b = ground arith

      gone : clock j ≤ clock k → ⊥
      gone l = omega (arith, l, h)

  pub Timely-InTime :
      (k : ℕ) (w w' : Watch)
      → InTime clock J K k w
      → Timely timeouts clock start k w w'
      → InTime clock J K (suc k) w'
  Timely-InTime k w w' (k_le, inl (s, at)) (inl (s', still, same, early)) = (
    not_yet k K (less _ _ _ _ timeouts.max_record_s at recorded early),
    inl (still, subst (λ t. t ≤ clock J) (sym same) at),
  )
    where
      less : (a j l c n : ℕ) → a ≤ j → j + n ≤ l → c < a + n → c < l
      less a j l c n h i e = omega (arith, h, i, e)
  Timely-InTime k w w' (k_le, inl (s, at)) (inr (inl (s', now, same))) = absurd (clash s s')
  Timely-InTime k w w' (k_le, inl (s, at)) (inr (inr (s', still, early))) = absurd (clash s s')
  Timely-InTime k w w' (k_le, inr (s, at)) (inl (s', still, same, early)) = absurd (clash s' s)
  Timely-InTime k w w' (k_le, inr (s, at)) (inr (inl (s', now, same))) = (
    after at before,
    inl (now, subst (λ t. t ≤ clock J) (sym same) (clock_later clock on k J at)),
  )
    where
      after : {a b c : ℕ} → a ≤ b → b < c → suc a ≤ c
      after h i = omega (arith, h, i)
  Timely-InTime k w w' (k_le, inr (s, at)) (inr (inr (s', still, early))) =
      (after at before, inr (still, not_yet k J (less early waited)))
    where
      after : {a b c : ℕ} → a ≤ b → b < c → suc a ≤ c
      after h i = omega (arith, h, i)

      less : {c n j : ℕ} → c < n → n ≤ j → c < j
      less h i = omega (arith, h, i)

-- Rounds of at least a microsecond reach both deadlines.
pub ticks_enough :
    (timeouts : Timeouts) (clock : ℕ → ℕ)
    → ((n : ℕ) → clock n < clock (suc n))
    → (clock 0 + timeouts.waiting_room_s ≤ clock (timeouts.waiting_room_s + 1))
      × (clock (timeouts.waiting_room_s + 1) + timeouts.max_record_s
          ≤ clock (timeouts.waiting_room_s + timeouts.max_record_s + 2))
ticks_enough timeouts clock tick = (
  subst (λ n. clock 0 + timeouts.waiting_room_s ≤ clock n) (zero_plus (timeouts.waiting_room_s + 1))
      (less (clock 0) timeouts.waiting_room_s _
        (ticks clock 1 one_step 0 (timeouts.waiting_room_s + 1))),
  subst (λ n. clock (timeouts.waiting_room_s + 1) + timeouts.max_record_s ≤ clock n)
      (sums timeouts.waiting_room_s timeouts.max_record_s)
      (less (clock (timeouts.waiting_room_s + 1)) timeouts.max_record_s _
        (ticks clock 1 one_step (timeouts.waiting_room_s + 1) (timeouts.max_record_s + 1))),
)
  where
    less : (a n b : ℕ) → a + (n + 1) * 1 ≤ b → a + n ≤ b
    less a n b h = omega (arith, h)

    zero_plus : (n : ℕ) → 0 + n ≡ n
    zero_plus n = omega arith

    one_step : (n : ℕ) → clock n + 1 ≤ clock (suc n)
    one_step n = strict (clock n) (clock (suc n)) (tick n)
      where
        strict : (a b : ℕ) → a < b → a + 1 ≤ b
        strict a b h = omega (arith, h)

    sums : (a b : ℕ) → a + 1 + (b + 1) ≡ a + b + 2
    sums a b = omega arith
