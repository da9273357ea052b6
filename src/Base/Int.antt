-- ===== src/Base/Int.antt =====
-- The integers that a counter of the program can reach.
use Prim.Native.Nat.{ℕ, zero, suc, ◌+◌}
use mathlib.Core.Path.{◌≡◌}
use mathlib.Core.Bool.{Bool, true, false}
use native.Mathlib.Omega.{arith}
use taskplane.Base.Tests.{◌==◌}

-- `negsuc n` is -(n + 1).
pub data ℤ : Type 0 where
  pos : ℕ → ℤ
  negsuc : ℕ → ℤ

abbrev pub decrement : ℤ → ℤ
decrement (pos zero) = negsuc 0
decrement (pos (suc n)) = pos n
decrement (negsuc n) = negsuc (suc n)

abbrev pub increment : ℤ → ℤ
increment (pos n) = pos (n + 1)
increment (negsuc zero) = pos 0
increment (negsuc (suc n)) = negsuc n

abbrev pub is_positive : ℤ → Bool
is_positive (pos zero) = false
is_positive (pos (suc n)) = true
is_positive (negsuc n) = false

abbrev pub is_zero : ℤ → Bool
is_zero (pos n) = n == 0
is_zero (negsuc n) = false

unfoldable pub decrement_by : ℕ → ℤ → ℤ
decrement_by zero z = z
decrement_by (suc k) z = decrement_by k (decrement z)

pub decrement_by-pos : (k m : ℕ) → decrement_by k (pos (k + m)) ≡ pos m
unfolding decrement_by
decrement_by-pos zero m = ground arith
decrement_by-pos (suc k) m = ground (arith, decrement_by-pos k m)
