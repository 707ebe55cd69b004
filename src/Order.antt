-- ===== src/Order.antt =====
-- Comparisons that answer in an `Ordering`, as Rust's `Ord::cmp` does, and the laws of a total order.
pub mod Text
pub mod Integer
pub mod Sorting
use Prim.Native.Nat.{Ordering, compare}
use Prim.Native.String.{then}
use pergamon.Common.{ℕ, ◌≡◌, ap, sym, ◌∙◌, refl, Bool, true, false, ◌⊎◌, inl, inr, arith}

-- Rust's `Ordering::then_with`.
abbrev pub then_with : Ordering → Ordering → Ordering
then_with = then

-- Rust's `Ordering::reverse`.
abbrev pub reverse : Ordering → Ordering
reverse Ordering.lt = Ordering.gt
reverse Ordering.eq = Ordering.eq
reverse Ordering.gt = Ordering.lt

-- `a < b` and `a <= b` of an answer of `cmp`.
abbrev pub is_lt : Ordering → Bool
is_lt Ordering.lt = true
is_lt Ordering.eq = false
is_lt Ordering.gt = false

abbrev pub is_le : Ordering → Bool
is_le Ordering.lt = true
is_le Ordering.eq = true
is_le Ordering.gt = false

abbrev pub is_eq : Ordering → Bool
is_eq Ordering.lt = false
is_eq Ordering.eq = true
is_eq Ordering.gt = false

-- A comparison is a total order: it answers "equal" on equal values alone, reversing the arguments
-- reverses the answer, and "less" is transitive.
pub record IsOrder {ℓ} {A : Type ℓ} (cmp : A → A → Ordering) : Type ℓ where
  pub cmp_self : (a : A) → cmp a a ≡ Ordering.eq
  pub eq_of_cmp : (a b : A) → cmp a b ≡ Ordering.eq → a ≡ b
  pub cmp_flip : (a b : A) → cmp b a ≡ reverse (cmp a b)
  pub lt_trans : (a b c : A) → cmp a b ≡ Ordering.lt → cmp b c ≡ Ordering.lt → cmp a c ≡ Ordering.lt

compare_lt_trans :
    (a b c : ℕ) → compare a b ≡ Ordering.lt → compare b c ≡ Ordering.lt → compare a c ≡ Ordering.lt
compare_lt_trans a b c h k = ground arith

compare_self : (a : ℕ) → compare a a ≡ Ordering.eq
compare_self a = ground arith

compare_eq : (a b : ℕ) → compare a b ≡ Ordering.eq → a ≡ b
compare_eq a b h = ground arith

compare_flip : (a b : ℕ) → compare b a ≡ reverse (compare a b)
compare_flip a b = ground arith

pub nat-IsOrder : IsOrder compare
nat-IsOrder = record {
  cmp_self = compare_self;
  eq_of_cmp = compare_eq;
  cmp_flip = compare_flip;
  lt_trans = compare_lt_trans;
}

-- The lexicographic step: what two answers in a row say.
pub then_eq : (o p : Ordering) → then_with o p ≡ Ordering.eq → (o ≡ Ordering.eq) × (p ≡ Ordering.eq)
then_eq o p h = ground arith

pub reverse-then_with :
    (o p : Ordering) → reverse (then_with o p) ≡ then_with (reverse o) (reverse p)
reverse-then_with o p = ground arith

module _ {ℓ} {A : Type ℓ} {cmp : A → A → Ordering} (ord : IsOrder cmp) where
  -- Transitivity of a lexicographic comparison, from that of its first part.
  pub then-lt_trans :
      (a b c : A) (o p q : Ordering)
      → (o ≡ Ordering.lt → p ≡ Ordering.lt → q ≡ Ordering.lt)
      → then_with (cmp a b) o ≡ Ordering.lt
      → then_with (cmp b c) p ≡ Ordering.lt
      → then_with (cmp a c) q ≡ Ordering.lt
  then-lt_trans a b c o p q rest h k =
      ground (arith, ord.lt_trans a b c, ord.eq_of_cmp a b, ord.eq_of_cmp b c)
