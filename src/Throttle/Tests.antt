-- ===== src/Throttle/Tests.antt =====
-- The default throttle, and instances of its theorems.
use pergamon.Common.{◌-◌, ◌*◌, ◌^◌, ◌≤◌, min, ◌≡◌, refl, arith}
use pergamon.Throttle.{default_config, lockout_for, lockout_for_mono, lockout_for_doubles}

ninth : lockout_for default_config 9 ≡ 8000
unfolding lockout_for
ninth = refl

last : lockout_for default_config 4000000000 ≡ 900000
unfolding lockout_for
last = refl

lockout_for_mono_example :
    (lockout_for default_config 7 ≤ lockout_for default_config 9)
    × (lockout_for default_config 9 ≤ 900000)
lockout_for_mono_example = lockout_for_mono default_config 7 9 (omega arith)

lockout_for_doubles_example : lockout_for default_config 9 ≡ min (1000 * 2 ^ (9 - 5 - 1)) 900000
lockout_for_doubles_example =
    lockout_for_doubles default_config 9 (omega arith) (omega arith) (omega arith) (omega arith)
