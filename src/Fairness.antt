-- ===== src/Fairness.antt =====
-- The limiter of concurrent store operations per tenant,
-- crates/pergamon-sync-server/src/fairness.rs. The mutex makes each test of the map with its update
-- one step. What a waiting caller meets when it wakes is an argument: the map that it finds, and
-- what its clock says.
pub mod Slots
pub mod Waiting
mod Tests
use pergamon.Common.{
  ℕ, suc, ◌-◌, String, Bool, true, false, ◌&&◌, Option, none, some, List, [], ◌∷◌, ltb, leb, ◌==◌,
  str_eq, if◌then◌else◌,
}
use pergamon.Common.Maps.{lookup, insert, remove}

pub record FairnessConfig : Type 0 where
  pub max_tenant_concurrency : ℕ
  pub wait_timeout : ℕ

pub for_pool : ℕ → ℕ → FairnessConfig
for_pool pool_size wait_timeout = record {
  max_tenant_concurrency = if ltb 1 pool_size then pool_size - 1 else 1;
  wait_timeout = wait_timeout;
}

pub is_disabled : FairnessConfig → Bool
is_disabled config = config.max_tenant_concurrency == 0

abbrev pub Inflight : Type 0
Inflight = List (String × ℕ)

-- `inflight.get(account_id).copied().unwrap_or(0)`
pub in_flight : String → Inflight → ℕ
in_flight account_id inflight = elim (lookup account_id inflight) [ none ↦ 0 | some count ↦ count ]

-- The test of the loop's head, with the update that it guards.
pub try_slot : FairnessConfig → String → Inflight → Option Inflight
unfolding in_flight
try_slot config account_id inflight =
    let current = in_flight account_id inflight in
    if ltb current config.max_tenant_concurrency
    then some (insert account_id (suc current) inflight)
    else none

-- One wait: whether the deadline had passed before it, and, after it, the map and whether the wait
-- timed out.
pub record Wake : Type 0 where
  pub expired : Bool
  pub inflight : Inflight
  pub timed_out : Bool

-- A caller goes on unguarded, holds a slot that made the map the given one, is shed, or still waits.
pub data Acquired : Type 0 where
  unguarded busy waiting : Acquired
  slot : Inflight → Acquired

pub acquire_loop : FairnessConfig → String → Inflight → List Wake → Acquired
acquire_loop config account_id inflight [] = elim (try_slot config account_id inflight) [
  | some taken ↦ slot taken
  | none ↦ waiting
]
acquire_loop config account_id inflight (wake ∷ wakes) =
    let rest = acquire_loop config account_id wake.inflight wakes in
    elim (try_slot config account_id inflight) [
      | some taken ↦ slot taken
      | none ↦
          if wake.expired
          then busy
          else if wake.timed_out
              && leb config.max_tenant_concurrency (in_flight account_id wake.inflight)
          then busy
          else rest
    ]

pub acquire : FairnessConfig → String → Inflight → List Wake → Acquired
unfolding acquire_loop
acquire config account_id inflight wakes =
    if is_disabled config then unguarded else acquire_loop config account_id inflight wakes

-- A count that is 0 after the decrement leaves the map.
pub release : String → Inflight → Inflight
release account_id inflight = elim (lookup account_id inflight) [
  | none ↦ inflight
  | some count ↦
      if count - 1 == 0 then remove account_id inflight else insert account_id (count - 1) inflight
]
