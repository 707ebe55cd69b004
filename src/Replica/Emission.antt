-- ===== src/Replica/Emission.antt =====
-- The emission of a local change, `emit_change` and what it calls in
-- crates/pergamon-storage/src/sync.rs: the canonical write, the stamps, and the row of the outbox.
pub mod Enqueued
use pergamon.Common.{
  ℕ, suc, String, Bool, true, false, Option, none, some, List, [], ◌∷◌, ◌++◌, map, min,
  if◌then◌else◌, Result, ok, ◌>>=◌,
}
use pergamon.Common.Maps.{lookup}
use pergamon.Hlc.{Hlc, tick, ◌≤?◌}
use pergamon.Event.{
  EntityType, Op, FieldMap, BlobManifestEntry, ChangeBody, tag_edge, collection_edge,
}
use pergamon.Merge.{merge_set_member}
use pergamon.Outbox.{OutboxRow}
use pergamon.Relay.{Bytes}
use pergamon.Replica.{
  StorageError, Json, Sqlite, Replica, entity_clock, set_entity_clock, set_edge, save_set_edge,
  set_tombstone, i64_max,
}
use pergamon.Replica.Rows.{read_entity_fields}
use pergamon.Replica.Writes.{is_delete, write_entity_fields, apply_edge_membership}
use pergamon.Replica.Apply.{is_prose, is_add}

-- The columns of the one row of `sync_state` that an emission reads or writes.
pub record SyncState : Type 0 where
  pub device_id : Option String
  pub hlc_wall_millis : ℕ
  pub hlc_counter : ℕ

pub record LocalStore (V : Type 0) : Type 0 where
  pub replica : Replica V
  pub state : SyncState
  pub outbox : List OutboxRow
  pub local_seq : ℕ

-- `unwrap_or_default`
or_default : Option String → String
or_default none = ""
or_default (some s) = s

sync_hlc : SyncState → Hlc
unfolding or_default
sync_hlc s = record {
  wall_millis = s.hlc_wall_millis;
  counter = s.hlc_counter;
  device_id = or_default s.device_id;
}

set_sync_hlc : Hlc → SyncState → SyncState
set_sync_hlc clock s = record s {
  hlc_wall_millis = min i64_max clock.wall_millis;
  hlc_counter = clock.counter;
}

blob_refs : {V : Type 0} → ChangeBody V → List String
blob_refs body = map (λ (b : BlobManifestEntry). b.ct_hash) body.blob_manifest

is_edge : EntityType → Bool
is_edge tag_edge = true
is_edge collection_edge = true
is_edge _ = false

-- The later of two clocks, the held one where they are equal.
abbrev pub later_of : Option Hlc → Hlc → Option Hlc
later_of none clock = some clock
later_of (some current) clock = if clock ≤? current then some current else some clock

module _ {V : Type 0} where
  base_version_for : EntityType → String → FieldMap V → Replica V → Option Hlc
  base_version_for t id [] r = none
  base_version_for t id ((field, _) ∷ fields) r =
      let rest = base_version_for t id fields r in
      if is_prose t field then entity_clock t id field r else rest

  -- One field of the loop of `observed_prose_version`.
  unfoldable pub raise : EntityType → String → String → Option Hlc → Replica V → Option Hlc
  raise t id field max r =
      if is_prose t field
      then (elim (entity_clock t id field r) [ none ↦ max | some clock ↦ later_of max clock ])
      else max

  unfoldable pub observed_loop :
      EntityType → String → FieldMap V → Option Hlc → Replica V → Option Hlc
  unfolding raise
  observed_loop t id [] max r = max
  observed_loop t id ((field, _) ∷ fields) max r =
      observed_loop t id fields (raise t id field max r) r

  -- A stamp for every field of the change.
  stamp_fields : EntityType → String → FieldMap V → Hlc → Replica V → Replica V
  stamp_fields t id [] clock r = r
  stamp_fields t id ((field, _) ∷ fields) clock r =
      stamp_fields t id fields clock (set_entity_clock t id field clock r)

module _ {V : Type 0} (json : Json V) (sql : Sqlite V) where
  unfoldable pub observed_prose_version : EntityType → String → Replica V → Option Hlc
  unfolding observed_loop
  observed_prose_version t id r = elim (read_entity_fields sql t id r.rows) [
    | none ↦ none
    | some fields ↦ observed_loop t id fields none r
  ]

  apply_local_canonical :
      EntityType → String → Op → FieldMap V → Replica V → Result StorageError (Replica V)
  unfolding is_edge write_entity_fields apply_edge_membership
  apply_local_canonical t id op fields r =
      if is_edge t
      then apply_edge_membership json sql t id (is_add json fields true) r
      else write_entity_fields json sql t id fields op r

  stamp_edge : EntityType → String → FieldMap V → Hlc → Replica V → Replica V
  unfolding is_edge
  stamp_edge t id fields clock r =
      if is_edge t
      then save_set_edge t id
          (merge_set_member (set_edge t id r) (is_add json fields true) clock).member r
      else r

  -- The clocks, and the state of an edge or the tombstone.
  stamp : EntityType → String → Op → FieldMap V → Hlc → Replica V → Replica V
  unfolding stamp_edge stamp_fields set_tombstone
  stamp t id op fields clock r =
      if is_delete op
      then set_tombstone t id clock r
      else stamp_edge t id fields clock (stamp_fields t id fields clock r)

  -- The change that is sent: what its writer had observed is read before the canonical write.
  unfoldable pub emitted_body :
      EntityType
      → String
      → Op
      → FieldMap V
      → List BlobManifestEntry
      → Hlc
      → Replica V
      → ChangeBody V
  unfolding base_version_for observed_prose_version
  emitted_body t id op fields blob_manifest clock r = record {
    entity_type = t;
    entity_id = id;
    op = op;
    clock = clock;
    base_version =
        if is_delete op then observed_prose_version t id r else base_version_for t id fields r;
    fields = fields;
    blob_manifest = blob_manifest;
  }

  -- `to_bytes` and the fresh change id are arguments.
  module _ (to_bytes : ChangeBody V → Result StorageError Bytes) (change_id : String) where
    enqueue_outbox : ChangeBody V → LocalStore V → Result StorageError (LocalStore V)
    unfolding blob_refs
    enqueue_outbox body d = to_bytes body >>= λ bytes. ok (record d {
      outbox =
          d.outbox
          ++ (record {
            change_id = change_id;
            entity_type = body.entity_type;
            entity_id = body.entity_id;
            op = body.op;
            body = bytes;
            blob_refs = blob_refs body;
            local_seq = d.local_seq;
            acked_seq = none;
          }
              ∷ []);
      local_seq = suc d.local_seq;
    })

    -- A device with an identity stamps and enqueues the change.
    emit_synced :
        EntityType
        → String
        → Op
        → FieldMap V
        → List BlobManifestEntry
        → ℕ
        → LocalStore V
        → Result StorageError (LocalStore V × Option String)
    unfolding sync_hlc set_sync_hlc tick apply_local_canonical stamp emitted_body enqueue_outbox
    emit_synced t id op fields blob_manifest now_millis d =
        let clock = tick (sync_hlc d.state) now_millis in
        let body = emitted_body t id op fields blob_manifest clock d.replica in
        apply_local_canonical t id op fields d.replica >>= λ r.
        enqueue_outbox body
          (record d { state = set_sync_hlc clock d.state; replica = stamp t id op fields clock r })
        >>= λ d'. ok (d', some change_id)

    unfoldable pub emit_change :
        EntityType
        → String
        → Op
        → FieldMap V
        → List BlobManifestEntry
        → ℕ
        → LocalStore V
        → Result StorageError (LocalStore V × Option String)
    unfolding emit_synced apply_local_canonical
    emit_change t id op fields blob_manifest now_millis d = elim d.state.device_id [
      | none ↦ apply_local_canonical t id op fields d.replica >>= λ r.
          ok (record d { replica = r }, none)
      | some _ ↦ emit_synced t id op fields blob_manifest now_millis d
    ]
