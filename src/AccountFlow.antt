-- ===== src/AccountFlow.antt =====
-- The guards of the three onboarding flows, crates/pergamon-core/src/account_flow.rs.
mod Tests
use pergamon.Common.{
  ◌≡◌, ◌↔◌, ◌⊎◌, Bool, true, false, not, ◌&&◌, ◌||◌, String, arith, Result, ok, err, if◌then◌else◌,
}

pub data AccountFlow : Type 0 where
  create_new attach_existing join_on_new_device : AccountFlow

pub cli_command : AccountFlow → String
cli_command create_new = "sync-device bootstrap"
cli_command attach_existing = "sync-remote enable"
cli_command join_on_new_device = "sync-device enroll / accept / recover"

pub describe : AccountFlow → String
describe create_new = "create a new account (first device)"
describe attach_existing = "attach this existing local account to a server"
describe join_on_new_device = "join an existing account on a new device"

pub record LocalAccountState : Type 0 where
  pub has_device_keys : Bool
  pub has_ark : Bool
  pub has_account_id : Bool
  pub is_sync_bound : Bool
  pub has_local_content : Bool

abbrev pub empty : LocalAccountState
empty = record {
  has_device_keys = false;
  has_ark = false;
  has_account_id = false;
  is_sync_bound = false;
  has_local_content = false;
}

pub belongs_to_account : LocalAccountState → Bool
belongs_to_account state = state.has_ark || state.is_sync_bound

pub data CreateAccountBlock : Type 0 where
  already_has_account needs_explicit_confirmation : CreateAccountBlock

pub suggested_flow : CreateAccountBlock → AccountFlow
suggested_flow _ = join_on_new_device

pub guard_create_new : LocalAccountState → Bool → Result CreateAccountBlock (Unit {0})
unfolding belongs_to_account
guard_create_new state explicit_confirm =
    if belongs_to_account state
    then err already_has_account
    else if state.has_local_content && not explicit_confirm
    then err needs_explicit_confirmation
    else ok tt

pub data AccountAdoptionBlock : Type 0 where
  missing_keys existing_library : AccountAdoptionBlock

pub guard_attach_existing : LocalAccountState → Result AccountAdoptionBlock (Unit {0})
guard_attach_existing state =
    if not state.has_ark || not state.has_device_keys then err missing_keys else ok tt

pub guard_join_new_device : LocalAccountState → Bool → Result AccountAdoptionBlock (Unit {0})
guard_join_new_device state matching_pending =
    if state.has_local_content
      || (state.has_ark && not matching_pending)
      || state.is_sync_bound
      || (state.has_account_id && not matching_pending)
    then err existing_library
    else ok tt

-- No state lets a device both attach and create an account: where attaching is allowed, creating is
-- refused even with a confirmation, and joining is refused unless an enrollment is pending.
-- Creating is allowed exactly without a root key and without a binding, and with a confirmation
-- where there is content; a join that is allowed never meets content or a binding.
pub guards_lem :
    (state : LocalAccountState) (confirm pending : Bool)
    → (guard_attach_existing state ≡ ok tt
        → (guard_create_new state confirm ≡ err already_has_account)
          × (guard_join_new_device state false ≡ err existing_library))
      × ((guard_create_new state confirm ≡ ok tt) ↔ (
          (state.has_ark ≡ false)
          × (state.is_sync_bound ≡ false)
          × ((state.has_local_content ≡ false) ⊎ (confirm ≡ true))))
      × (guard_join_new_device state pending ≡ ok tt
          → (state.has_local_content ≡ false) × (state.is_sync_bound ≡ false))
unfolding guard_create_new guard_attach_existing guard_join_new_device
guards_lem state confirm pending =
    (λ h. ground arith, (λ h. ground arith, λ h. ground arith), λ h. ground arith)
