-- ===== src/Throttle.antt =====
-- The lockout after failed logins, crates/pergamon-sync-server/src/auth/throttle.rs. A duration is
-- its number of milliseconds.
mod Tests
use native.Mathlib.Nat.{mul-le-mul, mul-le-mul_left, pow-le-pow_right}
use pergamon.Common.{
  ℕ, ◌-◌, ◌*◌, ◌^◌, ◌≤◌, ◌<◌, min, ◌≡◌, inl, inr, true, false, arith, leb, leb→le, if◌then◌else◌,
  saturating_mul, u64_max, Bool-cases,
}

pub record ThrottleConfig : Type 0 where
  pub threshold : ℕ
  pub base_delay : ℕ
  pub max_delay : ℕ

abbrev pub default_config : ThrottleConfig
default_config = record { threshold = 5; base_delay = 1000; max_delay = 900000 }

pub lockout_for : ThrottleConfig → ℕ → ℕ
lockout_for config failures =
    if leb failures config.threshold
    then 0
    else let steps = failures - config.threshold - 1 in
      let factor = 2 ^ min steps 40 in
      let base_ms = min config.base_delay u64_max in
      let delay_ms = saturating_mul u64_max base_ms factor in
      let max_ms = min config.max_delay u64_max in min delay_ms max_ms

-- A later failure never shortens the lockout, and no lockout passes the configured maximum.
pub lockout_for_mono :
    (config : ThrottleConfig) (failures more : ℕ)
    → failures ≤ more
    → (lockout_for config failures ≤ lockout_for config more)
      × (lockout_for config more ≤ config.max_delay)
unfolding lockout_for
lockout_for_mono config failures more h =
    let steps = failures - config.threshold - 1 in
    let more_steps = more - config.threshold - 1 in
    let base = min config.base_delay u64_max in
    let factors : 2 ^ min steps 40 ≤ 2 ^ min more_steps 40 =
      pow-le-pow_right (omega arith) (omega arith) in
    let delays = mul-le-mul_left base factors in (ground (arith, delays), ground arith)

-- Past the threshold the lockout is the base delay doubled with each further failure, up to the
-- maximum, where both fit in a `u64` and the maximum is at most the base delay times 2 ^ 40:
-- neither the bound on the exponent nor the saturation is ever seen.
pub lockout_for_doubles :
    (config : ThrottleConfig) (failures : ℕ)
    → config.max_delay ≤ config.base_delay * 2 ^ 40
    → config.max_delay ≤ u64_max
    → config.base_delay ≤ u64_max
    → config.threshold < failures
    → lockout_for config failures
      ≡ min (config.base_delay * 2 ^ (failures - config.threshold - 1)) config.max_delay
unfolding lockout_for
lockout_for_doubles config failures reach fits base past =
    let steps = failures - config.threshold - 1 in
    let open_now : leb failures config.threshold ≡ false = ground arith in
    let whole : min config.base_delay u64_max ≡ config.base_delay = omega arith in
    elim (Bool-cases (leb steps 40)) [
      | inl few ↦
          let e : min steps 40 ≡ steps = ground arith in rw (open_now, whole, e) (omega arith)
      | inr many ↦
          let e : min steps 40 ≡ 40 = ground arith in
          let powers : 2 ^ 40 ≤ 2 ^ steps =
            pow-le-pow_right (omega arith) {i = 40} {j = steps} (ground arith) in
          let above = mul-le-mul_left config.base_delay powers in
          rw (open_now, whole, e) (omega (arith, above))
    ]
