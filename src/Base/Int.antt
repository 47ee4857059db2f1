-- ===== src/Base/Int.antt =====
-- Signed integers over the native numbers, as far as the argument checks of the program need them.
use Prim.Native.Nat.{ℕ, suc}
use mathlib.Core.Bool.{Bool, true, false}

-- `negsuc n` is -(n + 1).
pub data ℤ : Type 0 where
  pos : ℕ → ℤ
  negsuc : ℕ → ℤ

abbrev pub is_negative : ℤ → Bool
is_negative (pos _) = false
is_negative (negsuc _) = true

abbrev pub is_below_one : ℤ → Bool
is_below_one (pos ℕ.zero) = true
is_below_one (pos (suc _)) = false
is_below_one (negsuc _) = true

-- The number itself where it is not negative.
abbrev pub magnitude : ℤ → ℕ
magnitude (pos n) = n
magnitude (negsuc _) = 0
