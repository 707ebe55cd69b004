-- ===== src/Hlc/Order.antt =====
-- The order of the stamps of crates/pergamon-core/src/sync/hlc.rs.
use Prim.Native.Nat.{Ordering}
use pergamon.Common.{◌≡◌, arith}
use pergamon.Order.{reverse, IsOrder, nat-IsOrder}
use pergamon.Order.Text.{text-IsOrder}
use pergamon.Hlc.{Hlc, compare}

compare_self : (a : Hlc) → compare a a ≡ Ordering.eq
unfolding compare
compare_self a =
    rw (nat-IsOrder.cmp_self a.wall_millis, nat-IsOrder.cmp_self a.counter)
      (text-IsOrder.cmp_self a.device_id)

eq_of_compare : (a b : Hlc) → compare a b ≡ Ordering.eq → a ≡ b
unfolding compare
eq_of_compare a b h = ground (
  arith,
  nat-IsOrder.eq_of_cmp a.wall_millis b.wall_millis,
  nat-IsOrder.eq_of_cmp a.counter b.counter,
  text-IsOrder.eq_of_cmp a.device_id b.device_id,
)

compare_flip : (a b : Hlc) → compare b a ≡ reverse (compare a b)
unfolding compare
compare_flip a b =
    rw
      (
        nat-IsOrder.cmp_flip a.wall_millis b.wall_millis,
        nat-IsOrder.cmp_flip a.counter b.counter,
        text-IsOrder.cmp_flip a.device_id b.device_id,
      )
      (ground arith)

compare_lt_trans :
    (a b c : Hlc)
    → compare a b ≡ Ordering.lt
    → compare b c ≡ Ordering.lt
    → compare a c ≡ Ordering.lt
unfolding compare
compare_lt_trans a b c h k = ground (
  arith,
  text-IsOrder.lt_trans a.device_id b.device_id c.device_id,
  text-IsOrder.eq_of_cmp a.device_id b.device_id,
  text-IsOrder.eq_of_cmp b.device_id c.device_id,
)

-- The comparison of stamps is a total order: it answers "equal" on equal stamps alone, it is
-- reversed with its arguments, and "less" is transitive.
pub compare-IsOrder : IsOrder compare
compare-IsOrder = record {
  cmp_self = compare_self;
  eq_of_cmp = eq_of_compare;
  cmp_flip = compare_flip;
  lt_trans = compare_lt_trans;
}
