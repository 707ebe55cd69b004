-- ===== src/Hlc/Advance.antt =====
-- Histories of one clock of crates/pergamon-core/src/sync/hlc.rs.
use Prim.Native.Nat.{Ordering}
use pergamon.Common.{
  ℕ, suc, ◌+◌, ◌≤◌, ◌<◌, ◌≡◌, refl, ◌↔◌, ◌⊎◌, inl, inr, List, [], ◌∷◌, arith, length, All, u32_max,
}
use pergamon.Order.Text.{text-IsOrder}
use pergamon.Hlc.{Hlc, IsStamp, tick, observe, compare}
use pergamon.Hlc.Order.{compare-IsOrder}

-- For a stamp with a counter that is a `u32`, a tick is later than the stamp exactly when the wall
-- clock has moved past the stamp or the counter is below the largest `u32`; otherwise the tick is
-- that same stamp again.
pub compare-tick :
    (c : Hlc) (now : ℕ)
    → IsStamp c
    → ((compare c (tick c now) ≡ Ordering.lt) ↔ ((c.wall_millis < now) ⊎ (c.counter < u32_max)))
      × ((now ≤ c.wall_millis) × (c.counter ≡ u32_max) → tick c now ≡ c)
unfolding tick compare
compare-tick c now s = ((later, λ h. ground arith), λ h. ground arith)
  where
    later : compare c (tick c now) ≡ Ordering.lt → (c.wall_millis < now) ⊎ (c.counter < u32_max)
    later h = ground (arith, text-IsOrder.cmp_self c.device_id)

tick_later : (c : Hlc) (now : ℕ) → c.counter < u32_max → compare c (tick c now) ≡ Ordering.lt
unfolding tick compare
tick_later c now h = ground arith

-- An observed stamp and the device's own are both before the clock that has observed it.
pub observe_later :
    (c remote : Hlc) (now : ℕ)
    → c.counter < u32_max
    → remote.counter < u32_max
    → (compare c (observe c remote now) ≡ Ordering.lt)
      × (compare remote (observe c remote now) ≡ Ordering.lt)
unfolding observe compare
observe_later c remote now h k = (ground arith, ground arith)

-- What moves a device's clock: an event of its own, or the stamp of a pulled change, each at a
-- reading of the wall clock.
pub data Input : Type 0 where
  local : ℕ → Input
  receive : Hlc → ℕ → Input

pub advance : Hlc → Input → Hlc
unfolding tick observe
advance c (local now) = tick c now
advance c (receive remote now) = observe c remote now

pub run : Hlc → List Input → Hlc
run c [] = c
run c (i ∷ is) = run (advance c i) is

unfoldable pub observed : List Input → List Hlc
observed [] = []
observed (local now ∷ is) = observed is
observed (receive remote now ∷ is) = remote ∷ observed is

-- No counter in sight passes `b`.
abbrev pub Within : ℕ → Hlc → List Input → Type 0
Within b c is = (c.counter ≤ b) × All (λ r. r.counter ≤ b) (observed is)

tick_counter : (c : Hlc) (now b : ℕ) → c.counter ≤ b → (tick c now).counter ≤ suc b
unfolding tick
tick_counter c now b h = ground arith

observe_counter_le :
    (c remote : Hlc) (now b : ℕ)
    → c.counter ≤ b
    → remote.counter ≤ b
    → (observe c remote now).counter ≤ suc b
unfolding observe
observe_counter_le c remote now b h k = ground arith

All-mono : (b : ℕ) (rs : List Hlc) → All (λ r. r.counter ≤ b) rs → All (λ r. r.counter ≤ suc b) rs
All-mono b [] h = tt
All-mono b (r ∷ rs) h = (omega arith, All-mono b rs h.1)

lt_trans :
    (a b c : Hlc)
    → compare a b ≡ Ordering.lt
    → compare b c ≡ Ordering.lt
    → compare a c ≡ Ordering.lt
lt_trans = compare-IsOrder.lt_trans

run_le :
    (b : ℕ) (c d : Hlc) (is : List Input)
    → Within b c is
    → b + length is ≤ u32_max
    → compare d c ≡ Ordering.lt
    → compare d (run c is) ≡ Ordering.lt
unfolding run observed advance
run_le b c d [] w room h = h
run_le b c d (local now ∷ is) w room h =
    run_le (suc b) (tick c now) d is (tick_counter c now b w.0, All-mono b (observed is) w.1)
      (omega arith) (lt_trans d c (tick c now) h (tick_later c now (omega arith)))
run_le b c d (receive remote now ∷ is) w room h =
    run_le (suc b) (observe c remote now) d is
      (observe_counter_le c remote now b w.0 w.1.0, All-mono b (observed is) w.1.1) (omega arith)
      (lt_trans d c (observe c remote now) h
        (observe_later c remote now (omega arith) (omega arith)).0)

-- Over any history of own events and observed stamps that leaves room in the counter (the counters
-- of the start and of every observed stamp are at most `b`, and `b` plus the number of inputs is at
-- most the largest `u32`), the clock ends strictly later than every stamp it has observed, and
-- strictly later than it began if anything happened at all.
pub run_ahead :
    (b : ℕ) (c : Hlc) (is : List Input)
    → Within b c is
    → b + length is ≤ u32_max
    → ((is ≡ []) ⊎ (compare c (run c is) ≡ Ordering.lt))
      × All (λ r. compare r (run c is) ≡ Ordering.lt) (observed is)
unfolding run observed advance
run_ahead b c [] w room = (inl refl, tt)
run_ahead b c (local now ∷ is) w room =
    let w' : Within (suc b) (tick c now) is =
      (tick_counter c now b w.0, All-mono b (observed is) w.1) in
    (
      inr (run_le (suc b) (tick c now) c is w' (omega arith) (tick_later c now (omega arith))),
      (run_ahead (suc b) (tick c now) is w' (omega arith)).1,
    )
run_ahead b c (receive remote now ∷ is) w room =
    let w' : Within (suc b) (observe c remote now) is =
      (observe_counter_le c remote now b w.0 w.1.0, All-mono b (observed is) w.1.1) in
    let later = observe_later c remote now (omega arith) (omega arith) in
    (
      inr (run_le (suc b) (observe c remote now) c is w' (omega arith) later.0),
      (
        run_le (suc b) (observe c remote now) remote is w' (omega arith) later.1,
        (run_ahead (suc b) (observe c remote now) is w' (omega arith)).1,
      ),
    )
