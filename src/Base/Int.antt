-- ===== src/Base/Int.antt =====
-- The `int` results of the program, which are small: `negsuc n` is -(n + 1).
use Prim.Native.Nat.{ℕ, ◌-◌}
use mathlib.Core.Bool.{Bool, true, false}

pub data ℤ : Type 0 where
  pos : ℕ → ℤ
  negsuc : ℕ → ℤ

-- `-n`, for a positive `n`.
abbrev pub neg : ℕ → ℤ
neg n = negsuc (n - 1)

-- `r < 0` and `r == 0`
abbrev pub is_neg : ℤ → Bool
is_neg (pos n) = false
is_neg (negsuc n) = true

abbrev pub is_zero : ℤ → Bool
is_zero (pos ℕ.zero) = true
is_zero (pos (ℕ.suc n)) = false
is_zero (negsuc n) = false
