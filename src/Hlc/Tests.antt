-- ===== src/Hlc/Tests.antt =====
-- The clock at the inputs of the unit tests of hlc.rs, and instances of its theorems.
use Prim.Native.Nat.{Ordering}
use pergamon.Common.{ℕ, ◌≡◌, ◌↔◌, ◌⊎◌, ◌<◌, ◌≤◌, refl, List, [], ◌∷◌, arith, All, u32_max}
use pergamon.Hlc.{Hlc, new, tick, observe, compare}
use pergamon.Hlc.Advance.{Input, local, receive, run, observed, compare-tick, run_ahead}

abbrev local_clock : Hlc
local_clock = new 100 2 "dev"

abbrev remote_clock : Hlc
remote_clock = new 140 9 "other"

observe_remote : observe local_clock remote_clock 130 ≡ new 140 10 "dev"
unfolding observe
observe_remote = refl

device_tie : compare (new 5 3 "aaa") (new 5 3 "bbb") ≡ Ordering.lt
unfolding compare
device_tie = refl

compare-tick_example :
    ((compare local_clock (tick local_clock 100) ≡ Ordering.lt) ↔ ((100 < 100) ⊎ (2 < u32_max)))
    × ((100 ≤ 100) × (◌≡◌ {A = ℕ} 2 u32_max) → tick local_clock 100 ≡ local_clock)
compare-tick_example =
    compare-tick local_clock 100 (record { wall = omega arith; count = omega arith })

abbrev history : List Input
history = local 100 ∷ receive remote_clock 130 ∷ local 120 ∷ []

run_ahead_example :
    ((history ≡ []) ⊎ (compare local_clock (run local_clock history) ≡ Ordering.lt))
    × All (λ r. compare r (run local_clock history) ≡ Ordering.lt) (observed history)
unfolding observed
run_ahead_example = run_ahead 9 local_clock history (omega arith) (omega arith)
