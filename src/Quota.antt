-- ===== src/Quota.antt =====
-- The storage quota of crates/pergamon-sync-server/src/quota.rs. A limit of 0 is no limit.
mod Tests
use pergamon.Common.{
  ℕ, ◌≤◌, ◌≡◌, ◌↔◌, ◌⊎◌, Bool, not, ◌&&◌, arith, ltb, ◌==◌, if◌then◌else◌, Result, ok, err,
}

pub data QuotaLimit : Type 0 where
  bytes objects : QuotaLimit

pub record QuotaConfig : Type 0 where
  pub max_account_bytes : ℕ
  pub max_account_objects : ℕ

abbrev pub unlimited : QuotaConfig
unlimited = record { max_account_bytes = 0; max_account_objects = 0 }

unfoldable pub is_unlimited : QuotaConfig → Bool
is_unlimited q = q.max_account_bytes == 0 && q.max_account_objects == 0

unfoldable pub check : QuotaConfig → ℕ → ℕ → Result QuotaLimit (Unit {0})
check q total_bytes total_objects =
    if not (q.max_account_bytes == 0) && ltb q.max_account_bytes total_bytes
    then err bytes
    else if not (q.max_account_objects == 0) && ltb q.max_account_objects total_objects
    then err objects
    else ok tt

-- A total is under a cap: the cap is 0, or the total does not pass it.
abbrev pub Under : ℕ → ℕ → Type 0
Under cap total = (cap ≡ 0) ⊎ (total ≤ cap)

-- The check accepts exactly the usage that is under both caps; a refusal names the byte cap exactly
-- when that is passed, and the object cap exactly when only that is passed.
pub check_lem :
    (q : QuotaConfig) (b o : ℕ)
    → ((check q b o ≡ ok tt) ↔ (Under q.max_account_bytes b × Under q.max_account_objects o))
      × ((check q b o ≡ err bytes) ↔ (¬ Under q.max_account_bytes b))
      × ((check q b o ≡ err objects)
          ↔ (Under q.max_account_bytes b × (¬ Under q.max_account_objects o)))
unfolding check
check_lem q b o = (
  (λ h. ground arith, λ h. ground arith),
  (λ h. ground arith, λ h. ground arith),
  (λ h. ground arith, λ h. ground arith),
)
