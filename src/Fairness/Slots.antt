-- ===== src/Fairness/Slots.antt =====
-- The limiter over time: callers enter and leave in any order.
use pergamon.Common.{
  ℕ, suc, ◌-◌, ◌≤◌, ◌<◌, String, ◌≡◌, refl, ◌∙◌, inl, inr, Option, none, some, List, [], ◌∷◌, arith,
  ◌==◌, str_eq, eq_iff, if◌then◌else◌, Bool-cases,
}
use pergamon.Common.Maps.{lookup, insert, lookup-insert, lookup-remove}
use pergamon.Fairness.{FairnessConfig, Inflight, for_pool, in_flight, try_slot, release}

-- The map, and the accounts of the slots that callers hold.
pub record TenantLimiter : Type 0 where
  pub inflight : Inflight
  pub held : List String

-- How many of the held slots belong to the account.
pub slots_of : String → List String → ℕ
slots_of account [] = 0
slots_of account (x ∷ held) =
    let rest = slots_of account held in if str_eq x account then suc rest else rest

-- One of the account's slots is dropped.
pub drop_slot : String → List String → List String
drop_slot account [] = []
drop_slot account (x ∷ held) =
    let rest = drop_slot account held in if str_eq x account then held else x ∷ rest

abbrev pub empty : TenantLimiter
empty = record { inflight = []; held = [] }

pub data Step (config : FairnessConfig) : TenantLimiter → TenantLimiter → Type 0 where
  enter :
      (l : TenantLimiter) (account : String) (taken : Inflight)
      → try_slot config account l.inflight ≡ some taken
      → Step config l (record { inflight = taken; held = account ∷ l.held })
  leave :
      (l : TenantLimiter) (account : String)
      → 0 < slots_of account l.held
      → Step config l
          (record { inflight = release account l.inflight; held = drop_slot account l.held })

pub data Reachable (config : FairnessConfig) : TenantLimiter → Type 0 where
  start : Reachable config empty
  next : (l l' : TenantLimiter) → Reachable config l → Step config l l' → Reachable config l'

-- What the map holds for an account with so many slots: no entry at all for none.
abbrev pub entry : ℕ → Option ℕ
entry count = if count == 0 then none else some count

pub record IsCounted (config : FairnessConfig) (l : TenantLimiter) : Type 0 where
  pub entries : (x : String) → lookup x l.inflight ≡ entry (slots_of x l.held)
  pub capped : (x : String) → slots_of x l.held ≤ config.max_tenant_concurrency

slots_of-drop_slot :
    (x account : String) (held : List String)
    → slots_of x (drop_slot account held)
      ≡ (if str_eq account x then slots_of x held - 1 else slots_of x held)
unfolding slots_of drop_slot
slots_of-drop_slot x account [] = ground arith
slots_of-drop_slot x account (y ∷ held) =
    ground
      (arith, slots_of-drop_slot x account held, eq_iff account x, eq_iff y account, eq_iff y x)

try_slot-eq-some :
    (config : FairnessConfig) (account : String) (inflight taken : Inflight)
    → try_slot config account inflight ≡ some taken
    → (in_flight account inflight < config.max_tenant_concurrency)
      × (taken ≡ insert account (suc (in_flight account inflight)) inflight)
unfolding try_slot
try_slot-eq-some config account inflight taken h = ground arith

lookup-release :
    (x account : String) (inflight : Inflight) (count : ℕ)
    → lookup account inflight ≡ some count
    → lookup x (release account inflight)
      ≡ (if str_eq account x then entry (count - 1) else lookup x inflight)
unfolding release
lookup-release x account inflight count h = elim (Bool-cases (count - 1 == 0)) [
  | inl last ↦ rw (release, h, last) (lookup-remove x account inflight)
  | inr more ↦ rw (release, h, more) (lookup-insert x account (count - 1) inflight)
]

module _ (config : FairnessConfig) (l : TenantLimiter) (v : IsCounted config l) where
  in_flight-slots_of : (x : String) → in_flight x l.inflight ≡ slots_of x l.held
  unfolding in_flight
  in_flight-slots_of x = rw (in_flight, v.entries x) (ground arith)

  enter-IsCounted :
      (account : String) (taken : Inflight)
      → try_slot config account l.inflight ≡ some taken
      → IsCounted config (record { inflight = taken; held = account ∷ l.held })
  unfolding slots_of
  enter-IsCounted account taken h =
      let (room, e) = try_slot-eq-some config account l.inflight taken h in
      let now = in_flight-slots_of account in
      record {
        entries = λ x.
            rw
              (
                e,
                lookup-insert x account (suc (in_flight account l.inflight)) l.inflight,
                now,
                v.entries x,
              )
              (ground (arith, eq_iff account x));
        capped = λ x. ground (arith, v.capped x, eq_iff account x, room, now);
      }

  leave-IsCounted :
      (account : String)
      → 0 < slots_of account l.held
      → IsCounted config
          (record { inflight = release account l.inflight; held = drop_slot account l.held })
  leave-IsCounted account h = record {
    entries = λ x.
        let known : lookup account l.inflight ≡ some (slots_of account l.held) =
          v.entries account ∙ ground arith in
        rw
          (
            lookup-release x account l.inflight (slots_of account l.held) known,
            slots_of-drop_slot x account l.held,
            v.entries x,
          )
          (ground (arith, eq_iff account x));
    capped = λ x. ground (arith, slots_of-drop_slot x account l.held, v.capped x);
  }

Step-IsCounted :
    (config : FairnessConfig) (l l' : TenantLimiter)
    → Step config l l'
    → IsCounted config l
    → IsCounted config l'
Step-IsCounted config _ _ (Step.enter l account taken h) v =
    enter-IsCounted config l v account taken h
Step-IsCounted config _ _ (Step.leave l account h) v = leave-IsCounted config l v account h

-- However callers enter and leave, the map holds for each account the number of slots that its
-- callers hold, and no entry when that is 0; the number never passes the configured cap.
pub limiter_exact :
    (config : FairnessConfig) (l : TenantLimiter)
    → Reachable config l
    → (x : String)
    → (lookup x l.inflight ≡ entry (slots_of x l.held))
      × (slots_of x l.held ≤ config.max_tenant_concurrency)
unfolding slots_of
limiter_exact config l r x = let v = go l r in (v.entries x, v.capped x)
  where
    go : (l : TenantLimiter) → Reachable config l → IsCounted config l
    go _ Reachable.start = record { entries = λ y. refl; capped = λ y. omega arith }
    go _ (Reachable.next l₀ l' r s) = Step-IsCounted config l₀ l' s (go l₀ r)

-- Under the configuration for a pool of two or more connections no tenant ever holds the whole pool.
pub pool_keeps_room :
    (pool_size wait_timeout : ℕ) (l : TenantLimiter) (x : String)
    → 1 < pool_size
    → Reachable (for_pool pool_size wait_timeout) l
    → slots_of x l.held < pool_size
unfolding for_pool
pool_keeps_room pool_size wait_timeout l x h r =
    let capped = (limiter_exact (for_pool pool_size wait_timeout) l r x).1 in ground (arith, capped)
