-- ===== src/Relay.antt =====
-- The content store of the sync server, crates/pergamon-sync-server/src/store.rs: the append-only
-- event log and the blobs of each account. The two SQL tables are lists of rows in the order of
-- insertion; every statement is a function of the whole table. Bytes are numbers. The hash of the
-- bytes (SHA-256) and the wall clock are parameters.
pub mod Rows
pub mod Step
pub mod Requests
pub mod Log
pub mod Retry
pub mod Isolation
pub mod Paging
pub mod Metering
pub mod Backing
pub mod Content
mod Tests
use pergamon.Common.{
  ℕ, suc, ◌+◌, String, Bool, true, false, ◌&&◌, ◌||◌, not, max, Option, none, some, List, [], ◌∷◌,
  ◌++◌, ltb, leb, take, length, any, str_eq, if◌then◌else◌, saturating_add, u64_max, Result, ok,
  err, ◌>>=◌,
}
use pergamon.Quota
use pergamon.Quota.{QuotaConfig, QuotaLimit}

abbrev pub Bytes : Type 0
Bytes = List ℕ

pub record EventRecord : Type 0 where
  pub protocol_version : ℕ
  pub account_id : String
  pub device_id : String
  pub change_id : String
  pub entity_ref : Option String
  pub key_epoch : ℕ
  pub blob_refs : List String
  pub ciphertext : Bytes
  pub signature : Bytes

pub record StoredEventRecord : Type 0 where
  pub protocol_version : ℕ
  pub account_id : String
  pub device_id : String
  pub change_id : String
  pub entity_ref : Option String
  pub key_epoch : ℕ
  pub blob_refs : List String
  pub payload_bytes : ℕ
  pub server_seq : ℕ
  pub server_committed_at : ℕ
  pub ciphertext : Bytes
  pub signature : Bytes

pub record PushResultRecord : Type 0 where
  pub change_id : String
  pub server_seq : ℕ
  pub deduplicated : Bool

pub record PushOutcome : Type 0 where
  pub results : List PushResultRecord
  pub high_water_seq : ℕ

pub record BlobRow : Type 0 where
  pub account_id : String
  pub ct_hash : String
  pub bytes : Bytes
  pub byte_len : ℕ

pub record UsageRecord : Type 0 where
  pub blob_bytes : ℕ
  pub blob_count : ℕ
  pub event_bytes : ℕ
  pub event_count : ℕ

pub data StoreError : Type 0 where
  quota_exceeded : QuotaLimit → StoreError
  blob_hash_mismatch : (expected actual : String) → StoreError
  missing_blob : String → StoreError

-- `check(..).map_err(|limit| StoreError::QuotaExceeded { limit })`
pub over_quota : Result QuotaLimit (Unit {0}) → Result StoreError (Unit {0})
over_quota (ok _) = ok tt
over_quota (err limit) = err (quota_exceeded limit)

-- The rows of the `events` and of the `blobs` table, and the configured quota.
pub record SyncStore : Type 0 where
  pub quota : QuotaConfig
  pub events : List StoredEventRecord
  pub blobs : List BlobRow

abbrev pub total_bytes : UsageRecord → ℕ
total_bytes u = saturating_add u64_max u.blob_bytes u.event_bytes

abbrev pub total_objects : UsageRecord → ℕ
total_objects u = saturating_add u64_max u.blob_count u.event_count

-- `WHERE account_id = ?1`
pub events_of : String → List StoredEventRecord → List StoredEventRecord
events_of account [] = []
events_of account (r ∷ rows) =
    let rest = events_of account rows in if str_eq r.account_id account then r ∷ rest else rest

pub blobs_of : String → List BlobRow → List BlobRow
blobs_of account [] = []
blobs_of account (b ∷ rows) =
    let rest = blobs_of account rows in if str_eq b.account_id account then b ∷ rest else rest

pub payload_sum : List StoredEventRecord → ℕ
payload_sum [] = 0
payload_sum (r ∷ rows) = r.payload_bytes + payload_sum rows

pub byte_len_sum : List BlobRow → ℕ
byte_len_sum [] = 0
byte_len_sum (b ∷ rows) = b.byte_len + byte_len_sum rows

-- `SELECT 1 FROM blobs WHERE account_id = ?1 AND ct_hash = ?2`
pub blob_present : SyncStore → String → String → Bool
blob_present s account hash =
    any (λ b. str_eq b.account_id account && str_eq b.ct_hash hash) s.blobs

pub account_usage : SyncStore → String → UsageRecord
account_usage s account = record {
  blob_bytes = byte_len_sum (blobs_of account s.blobs);
  blob_count = length (blobs_of account s.blobs);
  event_bytes = payload_sum (events_of account s.events);
  event_count = length (events_of account s.events);
}

-- `COALESCE(MAX(server_seq), 0)`
pub max_seq : List StoredEventRecord → ℕ
max_seq [] = 0
max_seq (r ∷ rows) = max r.server_seq (max_seq rows)

pub high_water : SyncStore → String → ℕ
high_water s account = max_seq (events_of account s.events)

-- `SELECT server_seq FROM events WHERE account_id = ?1 AND change_id = ?2`, over the account's rows
pub seq_of_change : String → List StoredEventRecord → Option ℕ
seq_of_change change [] = none
seq_of_change change (r ∷ rows) =
    if str_eq r.change_id change then some r.server_seq else seq_of_change change rows

-- A blob is stored once, under the hash of its bytes, if it fits under the quota.
pub room_for_blob : SyncStore → String → String → Bytes → Result StoreError (Unit {0})
room_for_blob s account hash bytes =
    if Quota.is_unlimited s.quota || blob_present s account hash
    then ok tt
    else let usage = account_usage s account in
      over_quota (
        Quota.check s.quota (saturating_add u64_max (total_bytes usage) (length bytes))
          (saturating_add u64_max (total_objects usage) 1))

pub insert_blob : SyncStore → String → String → Bytes → SyncStore
insert_blob s account hash bytes =
    if blob_present s account hash then s else record s { blobs = s.blobs ++ row ∷ [] }
  where
    row : BlobRow
    row = record { account_id = account; ct_hash = hash; bytes = bytes; byte_len = length bytes }

pub blob_put : (Bytes → String) → SyncStore → String → String → Bytes → Result StoreError SyncStore
unfolding room_for_blob insert_blob
blob_put sha256 s account ct_hash bytes =
    if str_eq (sha256 bytes) ct_hash
    then (room_for_blob s account ct_hash bytes >>= λ _. ok (insert_blob s account ct_hash bytes))
    else err (blob_hash_mismatch ct_hash (sha256 bytes))

-- What the transaction of a push carries from one event to the next.
pub record Batch : Type 0 where
  pub store : SyncStore
  pub projected_bytes : ℕ
  pub projected_objects : ℕ
  pub next_seq : ℕ

pub require_blobs : SyncStore → String → List String → Result StoreError (Unit {0})
require_blobs s account [] = ok tt
require_blobs s account (hash ∷ rest) =
    let later = require_blobs s account rest in
    if blob_present s account hash then later else err (missing_blob hash)

pub meter : Batch → ℕ → Result StoreError Batch
meter b payload_len =
    if Quota.is_unlimited b.store.quota
    then ok b
    else let bytes = saturating_add u64_max b.projected_bytes payload_len in
      let objects = saturating_add u64_max b.projected_objects 1 in
      (over_quota (Quota.check b.store.quota bytes objects) >>= λ _.
      ok (record b { projected_bytes = bytes; projected_objects = objects }))

unfoldable pub stored_row : String → ℕ → ℕ → EventRecord → StoredEventRecord
stored_row account server_seq committed_at ev = record {
  protocol_version = ev.protocol_version;
  account_id = account;
  device_id = ev.device_id;
  change_id = ev.change_id;
  entity_ref = ev.entity_ref;
  key_epoch = ev.key_epoch;
  blob_refs = ev.blob_refs;
  payload_bytes = length ev.ciphertext;
  server_seq = server_seq;
  server_committed_at = committed_at;
  ciphertext = ev.ciphertext;
  signature = ev.signature;
}

pub append_event : String → ℕ → EventRecord → Batch → Batch
unfolding stored_row
append_event account committed_at ev b = record b {
  store = record b.store {
    events = b.store.events ++ stored_row account (suc b.next_seq) committed_at ev ∷ [];
  };
  next_seq = suc b.next_seq;
}

pub push_event : String → ℕ → Batch → EventRecord → Result StoreError (Batch × PushResultRecord)
unfolding require_blobs meter append_event
push_event account committed_at b ev =
    elim (seq_of_change ev.change_id (events_of account b.store.events)) [
      | some seq ↦
          ok (b, record { change_id = ev.change_id; server_seq = seq; deduplicated = true })
      | none ↦ require_blobs b.store account ev.blob_refs >>= λ _.
          meter b (length ev.ciphertext) >>= λ metered. ok (
            append_event account committed_at ev metered,
            record {
              change_id = ev.change_id;
              server_seq = suc metered.next_seq;
              deduplicated = false;
            },
          )
    ]

pub push_all :
    String → ℕ → Batch → List EventRecord → Result StoreError (Batch × List PushResultRecord)
push_all account committed_at b [] = ok (b, [])
push_all account committed_at b (ev ∷ evs) = push_event account committed_at b ev >>= λ first.
    push_all account committed_at first.0 evs >>= λ rest. ok (rest.0, first.1 ∷ rest.1)

pub begin_batch : SyncStore → String → Batch
begin_batch s account =
    let usage = account_usage s account in
    let enforce_quota = not (Quota.is_unlimited s.quota) in
    record {
      store = s;
      projected_bytes = if enforce_quota then total_bytes usage else 0;
      projected_objects = if enforce_quota then total_objects usage else 0;
      next_seq = high_water s account;
    }

-- An error drops the transaction: the store is the one before the call.
pub commit :
    SyncStore
    → Result StoreError (Batch × List PushResultRecord)
    → SyncStore × Result StoreError PushOutcome
commit s (err e) = (s, err e)
commit s (ok (b, results)) =
    (b.store, ok (record { results = results; high_water_seq = b.next_seq }))

pub push_events :
    SyncStore → String → ℕ → List EventRecord → SyncStore × Result StoreError PushOutcome
unfolding commit begin_batch
push_events s account committed_at evs =
    commit s (push_all account committed_at (begin_batch s account) evs)

-- `ORDER BY server_seq ASC`
pub insert_by_seq : StoredEventRecord → List StoredEventRecord → List StoredEventRecord
insert_by_seq r [] = r ∷ []
insert_by_seq r (x ∷ xs) =
    let rest = insert_by_seq r xs in if leb r.server_seq x.server_seq then r ∷ x ∷ xs else x ∷ rest

pub order_by_seq : List StoredEventRecord → List StoredEventRecord
order_by_seq [] = []
order_by_seq (r ∷ rows) = insert_by_seq r (order_by_seq rows)

-- `server_seq > ?2`
pub past : ℕ → List StoredEventRecord → List StoredEventRecord
past after [] = []
past after (r ∷ rows) =
    let rest = past after rows in if ltb after r.server_seq then r ∷ rest else rest

pub pull_events : SyncStore → String → ℕ → ℕ → List StoredEventRecord
unfolding order_by_seq insert_by_seq
pull_events s account after limit =
    take limit (order_by_seq (past after (events_of account s.events)))

pub pull_page : SyncStore → String → ℕ → ℕ → List StoredEventRecord × ℕ
pull_page s account after limit = (pull_events s account after limit, high_water s account)
