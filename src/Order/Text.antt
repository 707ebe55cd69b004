-- ===== src/Order/Text.antt =====
-- Rust's order on `str`.
use Prim.Native.Nat.{Ordering, compare as compare_ℕ}
use Prim.Native.String.compare
use Prim.Native.String.{[], ◌∷◌, compare}
use Prim.Native.Char.{code}
use text.Mathlib.TextEquality.{path_by_compare}
use text.Mathlib.TextPositions.{compare_refl}
use pergamon.Common.{String, ◌≡◌, sym}
use pergamon.Order.{reverse, IsOrder, nat-IsOrder, then-lt_trans, reverse-then_with}

compare_flip : (s t : String) → compare t s ≡ reverse (compare s t)
compare_flip [] [] = rw compare.nil-nil
compare_flip [] (d ∷ t) = rw (compare.nil-cons, compare.cons-nil)
compare_flip (c ∷ s) [] = rw (compare.nil-cons, compare.cons-nil)
compare_flip (c ∷ s) (d ∷ t) =
    rw (compare.cons-cons d c t s, compare.cons-cons c d s t, compare_flip s t)
      (rw (nat-IsOrder.cmp_flip (code c) (code d))
        (sym (reverse-then_with (compare_ℕ (code c) (code d)) (compare s t))))

compare_lt_trans :
    (s t u : String)
    → compare s t ≡ Ordering.lt
    → compare t u ≡ Ordering.lt
    → compare s u ≡ Ordering.lt
compare_lt_trans [] [] [] h k = cc
compare_lt_trans [] (d ∷ t) [] h k = cc (compare.cons-nil d t)
compare_lt_trans [] t (e ∷ u) h k = rw (compare.nil-cons)
compare_lt_trans (c ∷ s) [] u h k = cc (compare.cons-nil c s)
compare_lt_trans (c ∷ s) (d ∷ t) [] h k = cc (compare.cons-nil d t)
compare_lt_trans (c ∷ s) (d ∷ t) (e ∷ u) h k = rw (compare.cons-cons) (
    then-lt_trans nat-IsOrder (code c) (code d) (code e) (compare s t) (compare t u) (compare s u)
      (compare_lt_trans s t u) (rw compare.cons-cons at h) (rw compare.cons-cons at k))

pub text-IsOrder : IsOrder compare
text-IsOrder = record {
  cmp_self = compare_refl;
  eq_of_cmp = path_by_compare;
  cmp_flip = compare_flip;
  lt_trans = compare_lt_trans;
}
