-- ===== src/Prelude/Int.antt =====
-- Python's int over the native numbers, under the library's names, and its text.
use Prim.Native.Nat.{ℕ, suc, ◌*◌, ◌-◌}
use Prim.Native.String.{String}
use oreeai_notetaker.Prelude.Text.{◌<>◌, show_nat}

-- `negsuc n` is -(n + 1).
pub data ℤ : Type 0 where
  pos : ℕ → ℤ
  negsuc : ℕ → ℤ

-- `str(n)`
unfoldable pub show_int : ℤ → String
unfolding show_nat
show_int (pos n) = show_nat n
show_int (negsuc n) = "-" <> show_nat (suc n)

-- `k * n` for a positive `k`.
abbrev pub scale : ℕ → ℤ → ℤ
scale k (pos n) = pos (k * n)
scale k (negsuc n) = negsuc (k * suc n - 1)
