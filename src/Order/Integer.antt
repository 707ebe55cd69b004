-- ===== src/Order/Integer.antt =====
-- The order of the integers.
use Prim.Native.Nat.{Ordering}
use pergamon.Common.{◌≡◌, refl, sym, ap}
use pergamon.Common.Integers.{ℤ, pos, negsuc, compare}
use pergamon.Order.{reverse, IsOrder, nat-IsOrder}

compare_self : (a : ℤ) → compare a a ≡ Ordering.eq
compare_self (pos m) = nat-IsOrder.cmp_self m
compare_self (negsuc m) = nat-IsOrder.cmp_self m

eq_of_compare : (a b : ℤ) → compare a b ≡ Ordering.eq → a ≡ b
eq_of_compare (pos m) (pos n) h = ap pos (nat-IsOrder.eq_of_cmp m n h)
eq_of_compare (pos m) (negsuc n) h = cc
eq_of_compare (negsuc m) (pos n) h = cc
eq_of_compare (negsuc m) (negsuc n) h = ap negsuc (sym (nat-IsOrder.eq_of_cmp n m h))

compare_flip : (a b : ℤ) → compare b a ≡ reverse (compare a b)
compare_flip (pos m) (pos n) = nat-IsOrder.cmp_flip m n
compare_flip (pos m) (negsuc n) = refl
compare_flip (negsuc m) (pos n) = refl
compare_flip (negsuc m) (negsuc n) = nat-IsOrder.cmp_flip n m

compare_lt_trans :
    (a b c : ℤ) → compare a b ≡ Ordering.lt → compare b c ≡ Ordering.lt → compare a c ≡ Ordering.lt
compare_lt_trans (pos l) (pos m) (pos n) h k = nat-IsOrder.lt_trans l m n h k
compare_lt_trans (pos l) (pos m) (negsuc n) h k = cc
compare_lt_trans (pos l) (negsuc m) c h k = cc
compare_lt_trans (negsuc l) (pos m) (pos n) h k = refl
compare_lt_trans (negsuc l) (pos m) (negsuc n) h k = cc
compare_lt_trans (negsuc l) (negsuc m) (pos n) h k = refl
compare_lt_trans (negsuc l) (negsuc m) (negsuc n) h k = nat-IsOrder.lt_trans n m l k h

pub int-IsOrder : IsOrder compare
int-IsOrder = record {
  cmp_self = compare_self;
  eq_of_cmp = eq_of_compare;
  cmp_flip = compare_flip;
  lt_trans = compare_lt_trans;
}
