-- ===== src/Relay/Tests.antt =====
-- A store with one event and one blob, and instances of the theorems about the relay.
use mathlib.Core.List.{Perm}
use pergamon.Common.{
  ◌++◌, All, some, true, false, String, ◌≡◌, ◌≢◌, refl, subst, false, none, List, [], ◌∷◌, arith,
  length, Result, ok, eq_iff,
}
use pergamon.Quota
use pergamon.Relay.Requests.{push, write}
use pergamon.Relay.{
  Bytes, EventRecord, StoreError, PushOutcome, SyncStore, stored_row, events_of, past, push_events,
  push_event, push_all, begin_batch, commit, high_water, max_seq, seq_of_change, require_blobs,
  meter, append_event, account_usage, payload_sum, byte_len_sum, over_quota, blob_put, pull_page,
  blobs_of, blob_present, insert_blob, room_for_blob,
}
use pergamon.Relay.Log.{IsLog, IsLog-nil, push_events-IsLog}
use pergamon.Relay.Retry.{repeated, push_events_retry}
use pergamon.Relay.Isolation.{write_isolated}
use pergamon.Relay.Metering.{IsWithinQuota, writes-IsWithinQuota}
use pergamon.Relay.Backing.{IsBacked, writes-IsBacked}
use pergamon.Relay.Content.{blob_get, blob_probe, IsAddressed, blob_get-blob_put, blob_probe-splits}
use pergamon.Relay.Paging.{pull_pages, pull_pages_complete}

abbrev empty : SyncStore
empty = record {
  quota = record { max_account_bytes = 100; max_account_objects = 3 };
  events = [];
  blobs = [];
}

abbrev first_event : EventRecord
first_event = record {
  protocol_version = 1;
  account_id = "alice";
  device_id = "phone";
  change_id = "c1";
  entity_ref = none;
  key_epoch = 0;
  blob_refs = [];
  ciphertext = 7 ∷ 8 ∷ [];
  signature = [];
}

abbrev second_event : EventRecord
second_event = record first_event { change_id = "c2" }

abbrev batch_of_two : List EventRecord
batch_of_two = first_event ∷ second_event ∷ []

abbrev pushed : SyncStore
pushed = record empty {
  events = stored_row "alice" 1 5 first_event ∷ stored_row "alice" 2 5 second_event ∷ [];
}

abbrev answered : PushOutcome
answered = record {
  results =
      record { change_id = "c1"; server_seq = 1; deduplicated = false }
      ∷ record { change_id = "c2"; server_seq = 2; deduplicated = false }
      ∷ [];
  high_water_seq = 2;
}

pushed_two : push_events empty "alice" 5 batch_of_two ≡ (pushed, ok answered)
unfolding push_events push_all push_event begin_batch commit require_blobs meter append_event
    events_of high_water max_seq seq_of_change account_usage payload_sum byte_len_sum blobs_of
    over_quota Quota.is_unlimited Quota.check
pushed_two = refl

push_events-IsLog_example :
    IsLog (push_events empty "alice" 5 batch_of_two).0.events
    × ((out : PushOutcome)
        → (push_events empty "alice" 5 batch_of_two).1 ≡ ok out
        → out.high_water_seq
          ≡ length (events_of "alice" (push_events empty "alice" 5 batch_of_two).0.events))
push_events-IsLog_example = push_events-IsLog empty "alice" 5 batch_of_two IsLog-nil

push_events_retry_example :
    push_events pushed "alice" 9 batch_of_two
    ≡ (pushed, ok (record { results = repeated answered.results; high_water_seq = 2 }))
push_events_retry_example =
    push_events_retry empty pushed "alice" 5 9 batch_of_two answered IsLog-nil pushed_two

pushed-IsLog : IsLog pushed.events
pushed-IsLog =
    subst (λ (r : SyncStore × Result StoreError PushOutcome). IsLog r.0.events) pushed_two
      push_events-IsLog_example.0

pull_pages_complete_example :
    pull_pages 3 pushed "alice" 1 ≡ past 1 (events_of "alice" pushed.events)
unfolding events_of past stored_row
pull_pages_complete_example = pull_pages_complete pushed "alice" pushed-IsLog 3 1 (omega arith)

-- The hash of some bytes is "h".
abbrev sha256 : Bytes → String
sha256 _ = "h"

abbrev stored : SyncStore
stored = record empty {
  blobs = record { account_id = "alice"; ct_hash = "h"; bytes = 4 ∷ []; byte_len = 1 } ∷ [];
}

stored_one : blob_put sha256 empty "alice" "h" (4 ∷ []) ≡ ok stored
unfolding blob_put room_for_blob insert_blob blob_present account_usage events_of payload_sum
    byte_len_sum blobs_of over_quota Quota.is_unlimited Quota.check
stored_one = refl

alice≢bob : ◌≢◌ {A = String} "alice" "bob"
alice≢bob e = ground (arith, eq_iff "alice" "bob")

write_isolated_example :
    (pull_page (write sha256 "alice" (push 5 batch_of_two) empty) "bob" 0 10
      ≡ pull_page empty "bob" 0 10)
    × (blobs_of "bob" (write sha256 "alice" (push 5 batch_of_two) empty).blobs
        ≡ blobs_of "bob" empty.blobs)
write_isolated_example =
    write_isolated empty "alice" "bob" alice≢bob sha256 (push 5 batch_of_two) 0 10

empty_within : IsWithinQuota "alice" empty
unfolding account_usage byte_len_sum payload_sum events_of blobs_of
empty_within = record { bytes = ground arith; objects = ground arith }

-- The account of the store has used up its bytes.
abbrev used_up : SyncStore
used_up = record stored { quota = record { max_account_bytes = 1; max_account_objects = 1 } }

used_up_within : IsWithinQuota "alice" used_up
unfolding account_usage byte_len_sum payload_sum events_of blobs_of
used_up_within = record { bytes = ground arith; objects = ground arith }

writes-IsWithinQuota_example :
    IsWithinQuota "alice" (write sha256 "alice" (push 5 batch_of_two) used_up)
writes-IsWithinQuota_example =
    writes-IsWithinQuota sha256 used_up "alice" (push 5 batch_of_two) used_up_within

writes-IsBacked_example : IsBacked (write sha256 "alice" (push 5 batch_of_two) stored)
writes-IsBacked_example = writes-IsBacked sha256 stored "alice" (push 5 batch_of_two) tt

-- A hash under which no bytes but the empty ones are called "e".
abbrev short_hash : Bytes → String
short_hash [] = "e"
short_hash (_ ∷ _) = "f"

abbrev stored_empty : SyncStore
stored_empty = record empty {
  blobs = record { account_id = "alice"; ct_hash = "e"; bytes = []; byte_len = 0 } ∷ [];
}

put_empty : blob_put short_hash empty "alice" "e" [] ≡ ok stored_empty
unfolding blob_put room_for_blob insert_blob blob_present account_usage events_of payload_sum
    byte_len_sum blobs_of over_quota Quota.is_unlimited Quota.check
put_empty = refl

short_hash_alone : (x : Bytes) → short_hash x ≡ "e" → x ≡ []
short_hash_alone [] e = refl
short_hash_alone (_ ∷ _) e = ground (arith, eq_iff "f" "e")

blob_get-blob_put_example :
    (blob_get stored_empty "alice" "e" ≡ some [])
    × (blob_probe stored_empty "alice" ("e" ∷ []) ≡ ("e" ∷ [], []))
    × IsAddressed short_hash stored_empty
blob_get-blob_put_example =
    blob_get-blob_put short_hash empty "alice" "e" [] stored_empty tt short_hash_alone put_empty

blob_probe-splits_example :
    Perm
      ((blob_probe stored "alice" ("h" ∷ "x" ∷ [])).0
        ++ (blob_probe stored "alice" ("h" ∷ "x" ∷ [])).1)
      ("h" ∷ "x" ∷ [])
    × All (λ h. blob_present stored "alice" h ≡ true) (blob_probe stored "alice" ("h" ∷ "x" ∷ [])).0
    × All
        (λ h. blob_present stored "alice" h ≡ false)
        (blob_probe stored "alice" ("h" ∷ "x" ∷ [])).1
blob_probe-splits_example = blob_probe-splits stored "alice" ("h" ∷ "x" ∷ [])
