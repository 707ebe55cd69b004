-- ===== src/Quota/Tests.antt =====
-- The quota check at small inputs.
use pergamon.Common.{◌≡◌, ◌↔◌, refl, ok, err}
use pergamon.Quota.{QuotaConfig, bytes, objects, check, Under, check_lem}

abbrev small : QuotaConfig
small = record { max_account_bytes = 10; max_account_objects = 2 }

at_the_cap : check small 10 2 ≡ ok tt
unfolding check
at_the_cap = refl

check_lem_example :
    ((check small 11 3 ≡ ok tt) ↔ (Under 10 11 × Under 2 3))
    × ((check small 11 3 ≡ err bytes) ↔ (¬ Under 10 11))
    × ((check small 11 3 ≡ err objects) ↔ (Under 10 11 × (¬ Under 2 3)))
check_lem_example = check_lem small 11 3
