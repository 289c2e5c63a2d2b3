-- ===== src/Prelude/Text.antt =====
-- Text that the program builds: concatenation and decimal numbers.
use Prim.Native.Nat.{ℕ, zero, suc, ◌/◌, ◌%◌}
use Prim.Native.String
use Prim.Native.String.{String}
use mathlib.Core.List.{List, [], ◌∷◌}
use mathlib.Core.Path.{◌≡◌, refl}
use mathlib.Core.Logic.{inl, inr}
use mathlib.Core.Bool.{false}
use oreeai_notetaker.Prelude.Scan.{has_newline, has_newline-append}
use oreeai_notetaker.Prelude.Tests.{◌==◌, if◌then◌else◌, Bool-cases}
use oreeai_notetaker.Prelude.Lists.{get_or, get_or_all}

infixr 65 ◌<>◌
abbrev pub ◌<>◌ : String → String → String
s <> t = String.◌++◌ s t

abbrev digits : List String
digits = "0" ∷ "1" ∷ "2" ∷ "3" ∷ "4" ∷ "5" ∷ "6" ∷ "7" ∷ "8" ∷ "9" ∷ []

abbrev digit : ℕ → String
digit d = get_or digits d ""

-- The digits of `n`; more fuel than `n` has digits is enough.
show_fuel : ℕ → ℕ → String
show_fuel zero n = ""
show_fuel (suc f) n =
    let more = show_fuel f (n / 10) <> digit (n % 10) in if n / 10 == 0 then digit n else more

-- `str(n)` of a Python int that is not negative.
unfoldable pub show_nat : ℕ → String
unfolding show_fuel
show_nat n = show_fuel (suc n) n

digit-has_newline : (d : ℕ) → has_newline (digit d) ≡ false
unfolding has_newline
digit-has_newline d =
    get_or_all (λ s. has_newline s ≡ false) digits d ""
      (refl, (refl, (refl, (refl, (refl, (refl, (refl, (refl, (refl, (refl, tt)))))))))) refl

-- A number is written on one line.
show_fuel-has_newline : (f n : ℕ) → has_newline (show_fuel f n) ≡ false
unfolding show_fuel has_newline
show_fuel-has_newline zero n = refl
show_fuel-has_newline (suc f) n = elim (Bool-cases (n / 10 == 0)) [
  | inl e ↦ rw (show_fuel, e) (digit-has_newline n)
  | inr e ↦
      rw (show_fuel, e)
        (has_newline-append (show_fuel f (n / 10)) (digit (n % 10))
          (show_fuel-has_newline f (n / 10)) (digit-has_newline (n % 10)))
]

pub show_nat-has_newline : (n : ℕ) → has_newline (show_nat n) ≡ false
unfolding show_nat
show_nat-has_newline n = show_fuel-has_newline (suc n) n
