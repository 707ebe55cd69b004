-- ===== src/Hlc/Facts.antt =====
-- Boolean tests on stamps, as the facts of a linear order that the merge proofs use.
use pergamon.Common.{◌≡◌, true, false, arith}
use pergamon.Hlc.{Hlc, ◌<?◌, ◌≤?◌}
use pergamon.Hlc.Order.{compare-IsOrder}

pub flip : (a b : Hlc) → (a ≤? b) ≡ false → (b <? a) ≡ true
flip a b h = ground (arith, compare-IsOrder.cmp_flip a b)

pub lt_not_le : (a b : Hlc) → (b <? a) ≡ true → (a ≤? b) ≡ false
lt_not_le a b h = ground (arith, compare-IsOrder.cmp_flip a b)

pub lt→le : (a b : Hlc) → (a <? b) ≡ true → (a ≤? b) ≡ true
lt→le a b h = ground arith

pub le_refl : (a : Hlc) → (a ≤? a) ≡ true
le_refl a = ground (arith, compare-IsOrder.cmp_self a)

pub lt_irrefl : (a : Hlc) → (a <? a) ≡ false
lt_irrefl a = ground (arith, compare-IsOrder.cmp_self a)

pub le_antisymm : (a b : Hlc) → (a ≤? b) ≡ true → (b ≤? a) ≡ true → a ≡ b
le_antisymm a b h k = ground (arith, compare-IsOrder.cmp_flip a b, compare-IsOrder.eq_of_cmp a b)

pub le_trans : (a b c : Hlc) → (a ≤? b) ≡ true → (b ≤? c) ≡ true → (a ≤? c) ≡ true
le_trans a b c h k = ground (
  arith,
  compare-IsOrder.lt_trans a b c,
  compare-IsOrder.eq_of_cmp a b,
  compare-IsOrder.eq_of_cmp b c,
)

pub lt-le_trans : (a b c : Hlc) → (a <? b) ≡ true → (b ≤? c) ≡ true → (a <? c) ≡ true
lt-le_trans a b c h k =
    ground (arith, compare-IsOrder.lt_trans a b c, compare-IsOrder.eq_of_cmp b c)

pub le-lt_trans : (a b c : Hlc) → (a ≤? b) ≡ true → (b <? c) ≡ true → (a <? c) ≡ true
le-lt_trans a b c h k =
    ground (arith, compare-IsOrder.lt_trans a b c, compare-IsOrder.eq_of_cmp a b)

pub le_of_not-lt : (a b : Hlc) → (a <? b) ≡ false → (b ≤? a) ≡ true
le_of_not-lt a b h = ground (arith, compare-IsOrder.cmp_flip a b)
