-- ===== src/Base/Int.antt =====
-- Go's signed integers: the sign, and what a sum of 64 bits does at the end of their range.
use Prim.Native.Nat.{ℕ, zero, suc, ◌+◌, ◌-◌, ◌^◌}
use mathlib.Core.Bool.{Bool, true, false}
use online_colab_document.Base.Tests.{nat_eq, ltb, if◌then◌else◌}

-- `negsuc n` is -(n + 1).
pub data ℤ : Type 0 where
  pos : ℕ → ℤ
  negsuc : ℕ → ℤ

abbrev pub is_negative : ℤ → Bool
is_negative (pos n) = false
is_negative (negsuc n) = true

-- `x <= 0`.
abbrev pub le_zero : ℤ → Bool
le_zero (pos n) = nat_eq n 0
le_zero (negsuc n) = true

abbrev pub pos_part : ℤ → ℕ
pos_part (pos n) = n
pos_part (negsuc n) = 0

-- `x + 1` of an int64: the greatest number wraps around to the least.
abbrev pub int64_suc : ℤ → ℤ
int64_suc (pos n) = if ltb n (2 ^ 63 - 1) then pos (suc n) else negsuc (2 ^ 63 - 1)
int64_suc (negsuc zero) = pos 0
int64_suc (negsuc (suc n)) = negsuc n

-- `x - n`.
abbrev pub minus : ℤ → ℕ → ℤ
minus (pos m) n = if ltb m n then negsuc (n - m - 1) else pos (m - n)
minus (negsuc m) n = negsuc (m + n)
