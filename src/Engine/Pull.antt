-- ===== src/Engine/Pull.antt =====
-- The pull half of the sync engine: what happens to each event of a page. The verification of a
-- signature, the decryption, the fetching of blobs and the merge into the tables are fields of
-- `Receiver`, which says what they answer in one run: the roster, the network and the blob store may
-- answer otherwise in the next, which has another `Receiver`. The wall clock when an event is processed is an argument.
pub mod Settled
pub mod Resume
pub mod Rounds
pub mod Complete
use pergamon.Common.{
  ℕ, zero, suc, ◌+◌, String, Bool, true, false, not, Option, none, some, List, [], ◌∷◌, any, length,
  ltb, str_eq, if◌then◌else◌, Result, ok, err, ◌>>=◌,
}
use pergamon.Hlc.{Hlc, observe}
use pergamon.Event.{ChangeBody}
use pergamon.Relay.{StoredEventRecord, SyncStore}
use pergamon.Relay.Paging.{pull}
use pergamon.Engine.{SyncError, protocol, batch, contains}

pub record Receiver (E V D : Type 0) : Type 0 where
  pub account_id_hex : String
  pub device_id : String
  pub verify_signature : StoredEventRecord → Result (SyncError E) (Unit {0})
  pub decrypt_change : StoredEventRecord → Result (SyncError E) (ChangeBody V)
  pub fetch_blobs : ChangeBody V → ℕ → Result (SyncError E) (Unit {0})
  pub apply_change : D → ChangeBody V → Result (SyncError E) D

-- What the device keeps: its clock, the ids of `sync_applied`, and the merged tables.
pub record Device (D : Type 0) : Type 0 where
  pub clock : Hlc
  pub applied : List String
  pub tables : D

abbrev pub Clock : Type 0
Clock = StoredEventRecord → ℕ

-- What an event does: it is passed over, or the device is the given one after it.
pub data Received (D : Type 0) : Type 0 where
  skipped : Received D
  changed : Device D → Received D

module _ {E V D : Type 0} (receiver : Receiver E V D) where
  -- The transaction: an error leaves the device as it was.
  pub absorb :
      Clock → Device D → StoredEventRecord → ChangeBody V → Result (SyncError E) (Received D)
  absorb now device ev body = receiver.apply_change device.tables body >>= λ tables. ok (
      changed (record {
        clock = observe device.clock body.clock (now ev);
        applied = ev.change_id ∷ device.applied;
        tables = tables;
      }))

  pub authenticate : Clock → Device D → StoredEventRecord → Result (SyncError E) (Received D)
  unfolding absorb
  authenticate now device ev = receiver.verify_signature ev >>= λ _.
      receiver.decrypt_change ev >>= λ body.
      receiver.fetch_blobs body ev.key_epoch >>= λ _. absorb now device ev body

  pub receive_event : Clock → Device D → StoredEventRecord → Result (SyncError E) (Received D)
  unfolding authenticate
  receive_event now device ev =
      if not (str_eq ev.account_id receiver.account_id_hex)
      then err (protocol "relay returned an event for a different content account")
      else if str_eq ev.device_id receiver.device_id
      then ok skipped
      else if contains ev.change_id device.applied
      then ok skipped
      else authenticate now device ev

  -- The events of a page in their order, up to the first error, and the number that was applied.
  unfoldable pub receive_page :
      Clock → Device D → List StoredEventRecord → Device D × Result (SyncError E) ℕ
  unfolding receive_event
  receive_page now device [] = (device, ok 0)
  receive_page now device (ev ∷ events) = elim (receive_event now device ev) [
    | err e ↦ (device, err e)
    | ok skipped ↦ receive_page now device events
    | ok (changed device') ↦
        let (last, answer) = receive_page now device' events in (last, (answer >>= λ n. ok (suc n)))
  ]

  -- The loop on fuel over the pages of a relay: the device and the cursor that it keeps, and the
  -- number of applied events, none without fuel. An error keeps the cursor before its page.
  pub pull_loop :
      ℕ → Clock → SyncStore → ℕ → ℕ → Device D → Device D × ℕ × Option (Result (SyncError E) ℕ)
  unfolding receive_page
  pull_loop zero now s cursor applied device = (device, cursor, none)
  pull_loop (suc fuel) now s cursor applied device =
      let (page, high_water_seq, next_cursor) =
        pull s receiver.account_id_hex cursor (some batch) in
      elim page [
        | [] ↦ (device, cursor, some (ok applied))
        | ev ∷ more ↦
            let (device', answer) = receive_page now device (ev ∷ more) in
            elim answer [
              | err e ↦ (device', cursor, some (err e))
              | ok n ↦ elim (ltb (length (ev ∷ more)) batch) [
                | true ↦ (device', next_cursor, some (ok (applied + n)))
                | false ↦ pull_loop fuel now s next_cursor (applied + n) device'
              ]
            ]
      ]
