-- ===== src/Engine/Tests.antt =====
-- A device that pushes two changes to an empty relay, and an instance of the theorem on its loop.
use pergamon.Common.{
  suc, length, All, ℕ, String, ◌≡◌, refl, false, none, some, List, [], ◌∷◌, map, arith, Result, ok,
  if◌then◌else◌, str_eq, err,
}
use pergamon.Hlc.{zero_clock}
use pergamon.Event.{ChangeBody, document, upsert}
use pergamon.Relay.{
  EventRecord, StoredEventRecord, PushResultRecord, SyncStore, stored_row, push_events, past,
  events_of,
}
use pergamon.Outbox.{OutboxRow, pending, pending_outbox, pending_outbox_count, mark_outbox_acked}
use pergamon.Engine.{SyncError, Transport, Client, push_loop, unexpected, ack_results, count_new}
use pergamon.Engine.Pull.{Receiver, Device, Clock, receive_page, pull_loop}
use pergamon.Engine.{protocol}
use pergamon.Engine.Pull.Settled.{IsSettled}
use pergamon.Engine.Pull.Resume.{Division, receive_page_again}
use pergamon.Engine.Pull.Complete.{pull_loop_complete}
use pergamon.Quota.{unlimited}
use pergamon.Relay.Log.{IsLog, IsLog-nil, push_events-IsLog}
use pergamon.Engine.Drains.{push_loop_drains}

abbrev body : ChangeBody String
body = record {
  entity_type = document;
  entity_id = "d";
  op = upsert;
  clock = zero_clock "phone";
  base_version = none;
  fields = [];
  blob_manifest = [];
}

abbrev event : String → EventRecord
event change_id = record {
  protocol_version = 1;
  account_id = "alice";
  device_id = "phone";
  change_id = change_id;
  entity_ref = none;
  key_epoch = 0;
  blob_refs = [];
  ciphertext = 7 ∷ [];
  signature = [];
}

abbrev client : Client String String
client = record {
  account_id_hex = "alice";
  from_bytes = λ _. ok body;
  encrypt_change = λ change_id _. ok (event change_id);
  encrypt_blob_plaintext = λ bytes. ok (record { ct_hash = "h"; ciphertext = bytes });
  load = λ _. ok none;
}

-- A transport that counts the events that it takes.
abbrev answer_to : ℕ → List EventRecord → ℕ × Result (SyncError String) (List PushResultRecord)
answer_to n events = (
  1,
  ok (
      map
        (λ (ev : EventRecord). record {
          change_id = ev.change_id;
          server_seq = 1;
          deduplicated = false;
        })
        events),
)

abbrev counter : Transport String ℕ
counter = record {
  push = λ n _ events. answer_to n events;
  blob_probe = λ n _ _. (n, ok []);
  blob_put = λ n _ _ _. (n, ok tt);
}

abbrev waiting_row : String → ℕ → OutboxRow
waiting_row change_id local_seq = record {
  change_id = change_id;
  entity_type = document;
  entity_id = "d";
  op = upsert;
  body = [];
  blob_refs = [];
  local_seq = local_seq;
  acked_seq = none;
}

abbrev waiting_rows : List OutboxRow
waiting_rows = waiting_row "c1" 0 ∷ waiting_row "c2" 1 ∷ []

pushes_both : (push_loop counter client 3 0 waiting_rows 0).2 ≡ some (ok 2)
unfolding push_loop ack_results unexpected count_new pending pending_outbox mark_outbox_acked
pushes_both = refl

push_loop_drains_example :
    (answer : Result (SyncError String) ℕ) × ((push_loop counter client 3 0 waiting_rows 0).2
      ≡ some answer)
    × ((n : ℕ)
        → answer ≡ ok n
        → pending_outbox_count (push_loop counter client 3 0 waiting_rows 0).1 ≡ 0)
unfolding pending
push_loop_drains_example = push_loop_drains counter client 3 0 waiting_rows 0 (omega arith)

-- A receiver that counts the changes that it applies.
abbrev receiver : Receiver String String ℕ
receiver = record {
  account_id_hex = "alice";
  device_id = "tablet";
  verify_signature = λ _. ok tt;
  decrypt_change = λ _. ok body;
  fetch_blobs = λ _ _. ok tt;
  apply_change = λ n _. ok (suc n);
}

abbrev fresh : Device ℕ
fresh = record { clock = zero_clock "tablet"; applied = []; tables = 0 }

abbrev bare : SyncStore
bare = record { quota = unlimited; events = []; blobs = [] }

-- The relay after another device pushed two changes.
abbrev relay : SyncStore
relay = (push_events bare "alice" 5 (event "c1" ∷ event "c2" ∷ [])).0

abbrev at_five : Clock
at_five _ = 5

abbrev page : List StoredEventRecord
page = stored_row "alice" 1 5 (event "c1") ∷ stored_row "alice" 2 5 (event "c2") ∷ []

applies_both : (receive_page receiver at_five fresh page).1 ≡ ok 2
unfolding receive_page stored_row
applies_both = refl

-- A first receipt in which the second event has an unknown signer, and a second one after the
-- roster was refreshed.
abbrev unsure : Receiver String String ℕ
unsure = record receiver {
  verify_signature =
      λ ev. if str_eq ev.change_id "c2" then err (protocol "unknown signer") else ok tt;
}

receive_page_again_example :
    (v : Division unsure at_five fresh page) × (receive_page receiver at_five
        (receive_page unsure at_five fresh page).0
        page
      ≡ receive_page receiver at_five (receive_page unsure at_five fresh page).0 v.left)
receive_page_again_example = receive_page_again unsure receiver refl refl at_five at_five fresh page

relay-IsLog : IsLog relay.events
relay-IsLog = (push_events-IsLog bare "alice" 5 (event "c1" ∷ event "c2" ∷ []) IsLog-nil).0

abbrev rounds : ℕ
rounds = suc (length (past 0 (events_of "alice" relay.events)))

pull_loop_complete_example :
    (answer : Result (SyncError String) ℕ) × ((pull_loop receiver rounds at_five relay 0 0 fresh).2
      ≡ some answer)
    × ((n : ℕ)
        → answer ≡ ok n
        → All
            (IsSettled receiver (pull_loop receiver rounds at_five relay 0 0 fresh).0)
            (past 0 (events_of "alice" relay.events)))
pull_loop_complete_example =
    pull_loop_complete receiver at_five relay relay-IsLog rounds 0 0 fresh (omega arith)
