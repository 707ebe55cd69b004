-- ===== src/AccountFlow/Tests.antt =====
-- A device that holds its keys, and an instance of the theorem about the guards.
use pergamon.Common.{◌≡◌, ◌↔◌, ◌⊎◌, true, false, ok, err}
use pergamon.AccountFlow.{
  LocalAccountState, empty, already_has_account, existing_library, guard_attach_existing,
  guard_create_new, guard_join_new_device, guards_lem,
}

abbrev offline : LocalAccountState
offline = record empty { has_device_keys = true; has_ark = true; has_account_id = true }

guards_lem_example :
    (guard_attach_existing offline ≡ ok tt
      → (guard_create_new offline true ≡ err already_has_account)
        × (guard_join_new_device offline false ≡ err existing_library))
    × ((guard_create_new offline true ≡ ok tt) ↔ (
        (offline.has_ark ≡ false)
        × (offline.is_sync_bound ≡ false)
        × ((offline.has_local_content ≡ false) ⊎ (true ≡ true))))
    × (guard_join_new_device offline true ≡ ok tt
        → (offline.has_local_content ≡ false) × (offline.is_sync_bound ≡ false))
guards_lem_example = guards_lem offline true true
