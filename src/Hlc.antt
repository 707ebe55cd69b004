-- ===== src/Hlc.antt =====
-- The hybrid logical clock of crates/pergamon-core/src/sync/hlc.rs: a stamp, its total order, and
-- the two rules by which a device advances its clock. The wall time is a `u64` and the counter a
-- `u32`, whose increment saturates; `IsStamp` states the two ranges.
pub mod Order
pub mod Facts
pub mod Advance
mod Tests
use Prim.Native.Nat.{Ordering, compare as compare_ℕ}
use Prim.Native.String.{compare as compare_text}
use pergamon.Common.{
  ℕ, ◌≤◌, String, ◌≡◌, Bool, ◌&&◌, max, ltb, ◌==◌, if◌then◌else◌, u32_max, u64_max, saturating_add,
}
use pergamon.Order.{then_with, is_lt, is_le}

pub record Hlc : Type 0 where
  pub wall_millis : ℕ
  pub counter : ℕ
  pub device_id : String

abbrev pub new : ℕ → ℕ → String → Hlc
new wall_millis counter device_id = record {
  wall_millis = wall_millis;
  counter = counter;
  device_id = device_id;
}

unfoldable pub tick : Hlc → ℕ → Hlc
tick c now_millis =
    if ltb c.wall_millis now_millis
    then new now_millis 0 c.device_id
    else new c.wall_millis (saturating_add u32_max c.counter 1) c.device_id

observe_counter : Hlc → Hlc → ℕ → ℕ
observe_counter c remote wall =
    if wall == c.wall_millis && wall == remote.wall_millis
    then saturating_add u32_max (max c.counter remote.counter) 1
    else if wall == c.wall_millis
    then saturating_add u32_max c.counter 1
    else if wall == remote.wall_millis
    then saturating_add u32_max remote.counter 1
    else 0

pub observe : Hlc → Hlc → ℕ → Hlc
unfolding observe_counter
observe c remote now_millis =
    let wall = max (max c.wall_millis remote.wall_millis) now_millis in
    new wall (observe_counter c remote wall) c.device_id

abbrev pub zero_clock : String → Hlc
zero_clock = new 0 0

-- `(wall_millis, counter)` as a pair is compared in the order of its parts.
pub compare_causal_key : Hlc → Hlc → Ordering
compare_causal_key a b =
    then_with (compare_ℕ a.wall_millis b.wall_millis) (compare_ℕ a.counter b.counter)

unfoldable pub compare : Hlc → Hlc → Ordering
unfolding compare_causal_key
compare a b = then_with (compare_causal_key a b) (compare_text a.device_id b.device_id)

infix 50 ◌<?◌ ◌≤?◌
-- Rust's `a < b` and `a <= b` on stamps.
abbrev pub ◌<?◌ : Hlc → Hlc → Bool
a <? b = is_lt (compare a b)

abbrev pub ◌≤?◌ : Hlc → Hlc → Bool
a ≤? b = is_le (compare a b)

-- The fields are in the range of their machine words.
pub record IsStamp (c : Hlc) : Type 0 where
  pub wall : c.wall_millis ≤ u64_max
  pub count : c.counter ≤ u32_max
