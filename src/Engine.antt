-- ===== src/Engine.antt =====
-- The push half of the sync engine, crates/pergamon-sync/src/engine.rs, over any transport. The
-- transport, the cryptographic context and the store of plaintext blobs are the traits and the
-- context that the engine is built from; a call of the transport may change its state also when it
-- fails. The base64 of an event on the wire is left out.
pub mod Drains
pub mod OverRelay
pub mod Pull
mod Tests
use pergamon.Common.{
  ℕ, zero, suc, ◌+◌, String, Bool, true, false, ◌||◌, not, Option, none, some, List, [], ◌∷◌, map,
  length, any, str_eq, ◌==◌, if◌then◌else◌, Result, ok, err,
}
use pergamon.Event.{BlobManifestEntry, ChangeBody}
use pergamon.Relay.{Bytes, EventRecord, PushResultRecord}
use pergamon.Outbox.{OutboxRow, pending_outbox, pending_outbox_count, mark_outbox_acked}

pub data SyncError (E : Type 0) : Type 0 where
  transport crypto storage : E → SyncError E
  missing_blob protocol : String → SyncError E
  incomplete_upload : (pending_events : ℕ) (missing_blobs : List String) → SyncError E

-- The `Transport` trait's calls that a push makes; a probe answers with the missing hashes.
pub record Transport (E T : Type 0) : Type 0 where
  pub push : T → String → List EventRecord → T × Result (SyncError E) (List PushResultRecord)
  pub blob_probe : T → String → List String → T × Result (SyncError E) (List String)
  pub blob_put : T → String → String → Bytes → T × Result (SyncError E) (Unit {0})

pub record EncryptedBlob : Type 0 where
  pub ct_hash : String
  pub ciphertext : Bytes

-- The local side: the account, the reading of a stored body, the encryption of an event and of a
-- blob, and the loading of a plaintext blob.
pub record Client (E V : Type 0) : Type 0 where
  pub account_id_hex : String
  pub from_bytes : Bytes → Result (SyncError E) (ChangeBody V)
  pub encrypt_change : String → ChangeBody V → Result (SyncError E) EventRecord
  pub encrypt_blob_plaintext : Bytes → Result (SyncError E) EncryptedBlob
  pub load : String → Result (SyncError E) (Option Bytes)

abbrev pub batch : ℕ
batch = 256

-- A step that may fail after it changed the transport, followed by the next.
abbrev pub after : {E T A B : Type 0} → T × Result E A → (T → A → T × Result E B) → T × Result E B
after (t, err e) next = (t, err e)
after (t, ok a) next = next t a

abbrev pub contains : String → List String → Bool
contains x = any (λ y. str_eq y x)

-- `any(|result| !expected.contains(..) || !seen.insert(..))`
pub unexpected : List String → List String → List PushResultRecord → Bool
unexpected expected seen [] = false
unexpected expected seen (result ∷ results) =
    not (contains result.change_id expected)
    || contains result.change_id seen
    || unexpected expected (result.change_id ∷ seen) results

pub ack_results : List PushResultRecord → List OutboxRow → List OutboxRow
ack_results [] rows = rows
ack_results (result ∷ results) rows =
    ack_results results (mark_outbox_acked result.change_id result.server_seq rows)

pub count_new : List PushResultRecord → ℕ
count_new [] = 0
count_new (result ∷ results) =
    let rest = count_new results in if result.deduplicated then rest else suc rest

module _ {E V T : Type 0} (transport : Transport E T) (client : Client E V) where
  upload_missing : List String → List BlobManifestEntry → T → T × Result (SyncError E) (Unit {0})
  upload_missing missing [] t = (t, ok tt)
  upload_missing missing (entry ∷ entries) t =
      let rest = upload_missing missing entries in
      if contains entry.ct_hash missing
      then elim (client.load entry.plaintext_hash) [
        | err e ↦ (t, err e)
        | ok none ↦ (t, err (missing_blob entry.ct_hash))
        | ok (some plaintext) ↦ elim (client.encrypt_blob_plaintext plaintext) [
          | err e ↦ (t, err e)
          | ok encrypted ↦
              after
                (transport.blob_put t client.account_id_hex encrypted.ct_hash encrypted.ciphertext)
                (λ t' _. rest t')
        ]
      ]
      else rest t

  pub upload_blobs : ChangeBody V → T → T × Result (SyncError E) (Unit {0})
  unfolding upload_missing
  upload_blobs body t = elim body.blob_manifest [
    | [] ↦ (t, ok tt)
    | entry ∷ entries ↦
        after
          (transport.blob_probe t client.account_id_hex
            (map (λ (b : BlobManifestEntry). b.ct_hash) (entry ∷ entries)))
          (λ t' missing. upload_missing missing (entry ∷ entries) t')
  ]

  -- The events of a page, each after the upload of its blobs.
  pub prepare : List OutboxRow → T → T × Result (SyncError E) (List EventRecord)
  unfolding upload_blobs
  prepare [] t = (t, ok [])
  prepare (row ∷ rows) t =
      let rest = prepare rows in
      elim (client.from_bytes row.body) [
        | err e ↦ (t, err e)
        | ok body ↦ after (upload_blobs body t) (λ t' _.
            elim (client.encrypt_change row.change_id body) [
              | err e ↦ (t', err e)
              | ok event ↦ after (rest t') (λ t'' events. (t'', ok (event ∷ events)))
            ])
      ]

  -- What a page's answer does to the outbox, and the number of new events or the error.
  pub settle :
      List OutboxRow
      → List OutboxRow
      → List PushResultRecord
      → List OutboxRow × Result (SyncError E) ℕ
  settle rows page results =
      if unexpected (map (λ (row : OutboxRow). row.change_id) page) [] results
      then (rows, err (protocol "push acknowledgement has unknown or repeated change IDs"))
      else let acked = ack_results results rows in
        if length results == length page
        then (acked, ok (count_new results))
        else (acked, err (incomplete_upload (pending_outbox_count acked) []))

  received :
      List OutboxRow
      → List OutboxRow
      → T × Result (SyncError E) (List PushResultRecord)
      → T × List OutboxRow × Result (SyncError E) ℕ
  unfolding settle
  received rows page (t, err e) = (t, rows, err e)
  received rows page (t, ok results) =
      let settled = settle rows page results in (t, settled.0, settled.1)

  -- One round of the loop, for a page that is not empty.
  pub push_round : List OutboxRow → List OutboxRow → T → T × List OutboxRow × Result (SyncError E) ℕ
  unfolding prepare received
  push_round rows page t =
      received rows page
        (after (prepare page t) (λ t' events. transport.push t' client.account_id_hex events))

  -- The loop on fuel: the transport and the outbox at its end, and the answer, none without fuel.
  pub push_loop : ℕ → ℕ → List OutboxRow → T → T × List OutboxRow × Option (Result (SyncError E) ℕ)
  unfolding push_round
  push_loop zero pushed rows t = (t, rows, none)
  push_loop (suc fuel) pushed rows t = elim (pending_outbox batch rows) [
    | [] ↦ (t, rows, some (ok pushed))
    | row ∷ more ↦
        let (t', rows', answer) = push_round rows (row ∷ more) t in
        elim answer [
          | err e ↦ (t', rows', some (err e))
          | ok new ↦ push_loop fuel (pushed + new) rows' t'
        ]
  ]
