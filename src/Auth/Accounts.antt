-- ===== src/Auth/Accounts.antt =====
-- Registration and the failure counters of the auth store, crates/pergamon-sync-server/src/auth/store.rs.
use pergamon.Common.{
  ℕ, suc, String, Bool, true, false, ◌&&◌, Option, none, some, List, [], ◌∷◌, any, ltb, str_eq,
  string_eq, if◌then◌else◌, Result, ok, err, ◌>>=◌, ◌≡◌, refl, subst, >>=-eq-ok, unless-eq-ok,
  ok-injective, u32_max, saturating_add, min,
}
use pergamon.Common.Tables.{get_row, put_row, drop_row}
use pergamon.Relay.{Bytes}
use pergamon.Throttle.{ThrottleConfig, lockout_for}
use pergamon.Auth.{
  AuthDb, FailureState, ContentBinding, legacy_reserved, retired, AuthStoreError, handle_exists, db,
  i64_max, saturating_add_i64,
}

abbrev pub is_live : ContentBinding → Bool
is_live b = elim b.state [ retired ↦ false | _ ↦ true ]

-- `WHERE auth_tenant_id = ?1 AND state != 'retired'`
abbrev pub is_live_of : String → ContentBinding → Bool
is_live_of tenant b = str_eq b.auth_tenant_id tenant && is_live b

unfoldable pub find_binding : String → List ContentBinding → Option ContentBinding
find_binding tenant [] = none
find_binding tenant (b ∷ bs) = if is_live_of tenant b then some b else find_binding tenant bs

unfoldable pub binding_for : String → AuthDb → Option ContentBinding
binding_for tenant s = find_binding tenant s.bindings

abbrev pub has_content : String → List ContentBinding → Bool
has_content content bs = any (λ (b : ContentBinding). str_eq b.content_account_id content) bs

abbrev pub has_live : String → List ContentBinding → Bool
has_live tenant bs = any (is_live_of tenant) bs

-- The primary key of the content id, and the unique index over the live rows of a tenant.
unfoldable pub insert_binding :
    ContentBinding → List ContentBinding → Result AuthStoreError (List ContentBinding)
insert_binding b bs =
    if has_content b.content_account_id bs
    then err db
    else if is_live b && has_live b.auth_tenant_id bs
    then err db
    else ok (b ∷ bs)

abbrev pub account_exists : String → AuthDb → Bool
account_exists identity s = elim (get_row identity s.accounts) [ none ↦ false | some _ ↦ true ]

-- The primary key on the identity, and the UNIQUE tenant.
insert_map :
    String → String → List (String × String) → Result AuthStoreError (List (String × String))
insert_map identity tenant rows =
    if any (λ (row : String × String). str_eq row.0 identity) rows
    then err db
    else if any (λ (row : String × String). str_eq row.1 tenant) rows
    then err db
    else ok ((identity, tenant) ∷ rows)

-- The two rows that both registrations insert.
pub insert_identity : ℕ → String → Bytes → String → String → AuthDb → Result AuthStoreError AuthDb
unfolding insert_map
insert_identity now identity record_bytes key_id tenant s =
    if account_exists identity s
    then err handle_exists
    else insert_map identity tenant s.account_map >>= λ rows. ok (record s {
      accounts =
          (
            identity,
            record { opaque_record = record_bytes; oprf_key_id = key_id; created_at = now },
          )
          ∷ s.accounts;
      account_map = rows;
    })

-- The tables of tokens and bindings are as they were.
abbrev pub SameGrants : AuthDb → AuthDb → Type 0
SameGrants s s' = (s'.tokens ≡ s.tokens) × (s'.bindings ≡ s.bindings)

pub insert_identity-SameGrants :
    (now : ℕ) (identity : String) (bytes : Bytes) (key_id tenant : String) (s s' : AuthDb)
    → insert_identity now identity bytes key_id tenant s ≡ ok s'
    → SameGrants s s'
unfolding insert_identity
insert_identity-SameGrants now identity bytes key_id tenant s s' h =
    let (_, _, done) =
      >>=-eq-ok (insert_map identity tenant s.account_map) _ (unless-eq-ok _ _ _ h).1 in
    subst (SameGrants s) (ok-injective done) (refl, refl)

abbrev pub legacy_binding : String → ContentBinding
legacy_binding account_id = record {
  auth_tenant_id = account_id;
  content_account_id = account_id;
  binding_version = 0;
  state = legacy_reserved;
  operation_id = none;
}

unfoldable pub finish_registration_at :
    ℕ → String → Bytes → String → String → AuthDb → Result AuthStoreError (AuthDb × String)
unfolding insert_identity
finish_registration_at now identity record_bytes key_id account_id s =
    insert_identity now identity record_bytes key_id account_id s >>= λ s'.
    insert_binding (legacy_binding account_id) s'.bindings >>= λ bindings.
    ok (record s' { bindings = bindings }, account_id)

-- `tenant` is the fresh UUID.
unfoldable pub register_unbound :
    ℕ → String → Bytes → String → String → AuthDb → Result AuthStoreError (AuthDb × String)
unfolding insert_identity
register_unbound now identity record_bytes key_id tenant s =
    insert_identity now identity record_bytes key_id tenant s >>= λ s'. ok (s', tenant)

pub opaque_record : String → AuthDb → Option Bytes
opaque_record identity s = elim (get_row identity s.accounts) [
  | none ↦ none
  | some row ↦ some row.opaque_record
]

pub account_id : String → AuthDb → Option String
account_id identity s = get_row identity s.account_map

unfoldable pub failure_state : String → AuthDb → FailureState
failure_state identity s = elim (get_row identity s.failures) [
  | none ↦ record { failure_count = 0; locked_until_ms = 0 }
  | some state ↦ record {
    failure_count = min u32_max state.failure_count;
    locked_until_ms = state.locked_until_ms;
  }
]

unfoldable pub locked_until : ℕ → String → AuthDb → Option ℕ
unfolding failure_state
locked_until now identity s =
    let state = failure_state identity s in
    if ltb now state.locked_until_ms then some state.locked_until_ms else none

-- `failure_count = failure_count + 1`, or the new row with a count of 1.
counted : Option FailureState → ℕ
counted none = 1
counted (some state) = suc state.failure_count

unfoldable pub record_failure : ℕ → ThrottleConfig → String → AuthDb → AuthDb × FailureState
unfolding failure_state counted
record_failure now throttle identity s =
    let current = failure_state identity s in
    let new_count = saturating_add u32_max current.failure_count 1 in
    let lockout_ms = min i64_max (lockout_for throttle new_count) in
    let locked = saturating_add_i64 now lockout_ms in
    (
      record s {
        failures =
            put_row identity
              (record {
                failure_count = counted (get_row identity s.failures);
                locked_until_ms = locked;
              })
              s.failures;
      },
      record { failure_count = new_count; locked_until_ms = locked },
    )

unfoldable pub reset_failures : String → AuthDb → AuthDb
reset_failures identity s = record s { failures = drop_row identity s.failures }
