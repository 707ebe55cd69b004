-- ===== src/Replica/Emission/Enqueued.antt =====
-- What an emission leaves in the outbox.
use pergamon.Common.{
  ℕ, String, Option, some, List, [], ◌∷◌, ◌++◌, Result, ok, ◌≡◌, sym, ap, ◌∙◌, >>=-eq-ok,
  ok-injective,
}
use pergamon.Hlc.{Hlc, tick}
use pergamon.Event.{EntityType, Op, FieldMap, BlobManifestEntry, ChangeBody}
use pergamon.Outbox.{OutboxRow}
use pergamon.Relay.{Bytes}
use pergamon.Replica.{StorageError, Json, Sqlite}
use pergamon.Replica.Emission.{
  LocalStore, sync_hlc, set_sync_hlc, apply_local_canonical, stamp, emitted_body, enqueue_outbox,
  emit_synced, emit_change,
}

module _ {V : Type 0} (json : Json V) (sql : Sqlite V)
    (to_bytes : ChangeBody V → Result StorageError Bytes) (change_id : String) where
  enqueue_outbox-row :
      (body : ChangeBody V) (d d' : LocalStore V)
      → enqueue_outbox json sql to_bytes change_id body d ≡ ok d'
      → (row : OutboxRow) × (d'.outbox ≡ d.outbox ++ (row ∷ [])) × (to_bytes body ≡ ok row.body)
  unfolding enqueue_outbox
  enqueue_outbox-row body d d' h =
      let (bytes, encoded, done) = >>=-eq-ok (to_bytes body) _ h in
      (_, ap (λ (x : LocalStore V). x.outbox) (sym (ok-injective done)), encoded)

  -- On a device with an identity a change that is emitted is the last row of the outbox.
  pub emit_change-row :
      (t : EntityType) (id : String) (op : Op) (fields : FieldMap V)
      → (blobs : List BlobManifestEntry) (now : ℕ) (d d' : LocalStore V) (sent : Option String)
      → (device : String) → d.state.device_id ≡ some device
      → emit_change json sql to_bytes change_id t id op fields blobs now d ≡ ok (d', sent)
      → (clock : Hlc) × (row : OutboxRow) × (d'.outbox ≡ d.outbox ++ (row ∷ []))
        × (to_bytes (emitted_body json sql t id op fields blobs clock d.replica) ≡ ok row.body)
  unfolding emit_change emit_synced
  emit_change-row t id op fields blobs now d d' sent device dev h =
      let clock = tick (sync_hlc d.state) now in
      let body = emitted_body json sql t id op fields blobs clock d.replica in
      let (r, _, k) =
        >>=-eq-ok (apply_local_canonical json sql t id op fields d.replica) _
          (rw (emit_change, dev) at h) in
      let written = record d {
        state = set_sync_hlc clock d.state;
        replica = stamp json sql t id op fields clock r;
      } in
      let (d1, enqueued, done) =
        >>=-eq-ok (enqueue_outbox json sql to_bytes change_id body written) _ k in
      let (row, last, encoded) = enqueue_outbox-row body written d1 enqueued in
      (
        clock,
        row,
        ap (λ (x : LocalStore V × Option String). x.0.outbox) (sym (ok-injective done)) ∙ last,
        encoded,
      )
