-- ===== src/Common/Integers.antt =====
-- Signed machine words of 64 bits: integers over the native numbers, kept in range by saturation.
use Prim.Native.Nat.{ℕ, zero, suc, ◌+◌, ◌-◌, min, Ordering, compare as compare_ℕ}
use pergamon.Common.Tests.{if◌then◌else◌, leb}

-- `negsuc n` is -(n + 1).
pub data ℤ : Type 0 where
  pos negsuc : ℕ → ℤ

-- The largest `i64`, and the smallest one is `negsuc i64_max`.
abbrev pub i64_max : ℕ
i64_max = 9223372036854775807

abbrev pub compare : ℤ → ℤ → Ordering
compare (pos m) (pos n) = compare_ℕ m n
compare (pos m) (negsuc n) = Ordering.gt
compare (negsuc m) (pos n) = Ordering.lt
compare (negsuc m) (negsuc n) = compare_ℕ n m

sub_ℕ : ℕ → ℕ → ℤ
sub_ℕ m n = if leb n m then pos (m - n) else negsuc (n - m - 1)

infixl 60 ◌+ℤ◌
pub ◌+ℤ◌ : ℤ → ℤ → ℤ
unfolding sub_ℕ
pos m +ℤ pos n = pos (m + n)
pos m +ℤ negsuc n = sub_ℕ m (suc n)
negsuc m +ℤ pos n = sub_ℕ n (suc m)
negsuc m +ℤ negsuc n = negsuc (suc (m + n))

pub neg : ℤ → ℤ
neg (pos zero) = pos zero
neg (pos (suc n)) = negsuc n
neg (negsuc n) = pos (suc n)

clamp_i64 : ℤ → ℤ
clamp_i64 (pos n) = pos (min i64_max n)
clamp_i64 (negsuc n) = negsuc (min i64_max n)

-- `i64::saturating_add` and `i64::saturating_sub`.
unfoldable pub saturating_add_i64 : ℤ → ℤ → ℤ
unfolding clamp_i64 ◌+ℤ◌
saturating_add_i64 a b = clamp_i64 (a +ℤ b)

unfoldable pub saturating_sub_i64 : ℤ → ℤ → ℤ
unfolding clamp_i64 ◌+ℤ◌ neg
saturating_sub_i64 a b = clamp_i64 (a +ℤ neg b)
