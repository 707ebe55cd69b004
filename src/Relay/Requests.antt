-- ===== src/Relay/Requests.antt =====
-- The two requests that write to the store of crates/pergamon-sync-server/src/store.rs, with what each
-- leaves: a request that fails leaves the store as it was.
use pergamon.Common.{ℕ, String, ◌≡◌, List, Result, ok, err}
use pergamon.Relay.{Bytes, EventRecord, StoreError, SyncStore, push_events, blob_put}

pub data Write : Type 0 where
  push : (now : ℕ) (events : List EventRecord) → Write
  upload : (hash : String) (bytes : Bytes) → Write

abbrev pub after_upload : SyncStore → Result StoreError SyncStore → SyncStore
after_upload s (ok s') = s'
after_upload s (err _) = s

abbrev pub write : (Bytes → String) → String → Write → SyncStore → SyncStore
write sha256 account (push now events) s = (push_events s account now events).0
write sha256 account (upload hash bytes) s = after_upload s (blob_put sha256 s account hash bytes)

-- What holds before an upload and after one that succeeds holds after any.
pub upload-keeps :
    (P : SyncStore → Type 0) (s : SyncStore) (answer : Result StoreError SyncStore)
    → P s
    → ((s' : SyncStore) → answer ≡ ok s' → P s')
    → P (after_upload s answer)
upload-keeps P s (ok s') v good = good s' (λ i. ok s')
upload-keeps P s (err e) v good = v
