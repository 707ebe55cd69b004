-- ===== src/Replica/Writes.antt =====
-- The writing of an entity and of a membership, crates/pergamon-storage/src/sync.rs.
use pergamon.Common.{
  ◌≡◌, ◌≢◌, ◌⊎◌, refl, subst, inl, inr, Option-cases, >>=-eq-ok, ok-injective, String, Bool, true,
  false, Option, none, some, List, [], ◌∷◌, if◌then◌else◌, string_eq, Result, ok, err, ◌>>=◌,
}
use pergamon.Common.Tables.{get_row, put_row, drop_row, pair_eq}
use pergamon.Event.{
  EntityType, Op, FieldMap, document, tag, collection, tag_edge, collection_edge, highlight, note,
  review_card, review_log, feed_subscription, settings, upsert, delete, field_patch,
}
use pergamon.Replica.{
  StorageError, constraint, generic, Json, Sqlite, Rows, RowKey, Membership, Verdict, admitted,
  refused, orphaned, Replica, split_edge_id,
}
use pergamon.Replica.Rows.{upsert_single, insert_append_only, upsert_highlight}
use pergamon.Replica.Columns.{
  document_defaults, tag_defaults, collection_defaults, note_defaults, feed_defaults,
  settings_defaults, review_card_defaults, review_log_defaults, allowed_columns, has_column,
}

unfoldable pub reject_unknown_columns :
    {V : Type 0} → EntityType → FieldMap V → Result StorageError (Unit {0})
reject_unknown_columns entity_type [] = ok tt
reject_unknown_columns entity_type ((key, _) ∷ fields) =
    let rest = reject_unknown_columns entity_type fields in
    if has_column key (allowed_columns entity_type)
    then rest
    else err (constraint "unknown sync column")

abbrev pub is_delete : Op → Bool
is_delete delete = true
is_delete _ = false

Verdict-cases : (v : Verdict) → (v ≡ admitted) ⊎ ((v ≡ refused) ⊎ (v ≡ orphaned))
Verdict-cases admitted = inl refl
Verdict-cases refused = inr (inl refl)
Verdict-cases orphaned = inr (inr refl)

module _ {V : Type 0} (json : Json V) (sql : Sqlite V) where
  keep_rows : RowKey → Rows V → Rows V
  keep_rows deleted [] = []
  keep_rows deleted (row ∷ rows) =
      let rest = keep_rows deleted rows in
      if sql.cascades deleted row.0 row.1
      then rest
      else (row.0, sql.set_null deleted row.0 row.1) ∷ rest

  keep_joins : RowKey → List (Membership × Unit {0}) → List (Membership × Unit {0})
  keep_joins deleted [] = []
  keep_joins deleted (row ∷ rows) =
      let rest = keep_joins deleted rows in
      if sql.cascades_join deleted row.0 then rest else row ∷ rest

  -- `DELETE FROM table WHERE id`, with the rows and join rows that go along; a row that
  -- stays loses its references to the deleted one where the schema says so.
  delete_row : String → String → Replica V → Replica V
  unfolding keep_rows keep_joins
  delete_row table id r = elim (get_row (table, id) r.rows) [
    | none ↦ r
    | some _ ↦ record r {
      rows = keep_rows (table, id) (drop_row (table, id) r.rows);
      joins = keep_joins (table, id) r.joins;
    }
  ]

  unfoldable pub delete_entity_row : EntityType → String → Replica V → Replica V
  unfolding delete_row
  delete_entity_row document id = delete_row "content_items" id
  delete_entity_row highlight id = delete_row "content_items" id
  delete_entity_row tag id = delete_row "tags" id
  delete_entity_row collection id = delete_row "collections" id
  delete_entity_row note id = delete_row "notes" id
  delete_entity_row feed_subscription id = delete_row "feeds" id
  delete_entity_row settings id = delete_row "settings" id
  delete_entity_row review_card id = delete_row "review_cards" id
  delete_entity_row review_log id = λ r. r
  delete_entity_row tag_edge id = λ r. r
  delete_entity_row collection_edge id = λ r. r

  delete_row-bookkeeping :
      (table id : String) (r : Replica V)
      → ((delete_row table id r).conflicts ≡ r.conflicts)
        × ((delete_row table id r).tombstones ≡ r.tombstones)
  unfolding delete_row
  delete_row-bookkeeping table id r = elim (Option-cases (get_row (table, id) r.rows)) [
    | inl e ↦ (rw (delete_row, e) refl, rw (delete_row, e) refl)
    | inr (row, e) ↦ (rw (delete_row, e) refl, rw (delete_row, e) refl)
  ]

  pub delete_entity_row-bookkeeping :
      (entity_type : EntityType) (id : String) (r : Replica V)
      → ((delete_entity_row entity_type id r).conflicts ≡ r.conflicts)
        × ((delete_entity_row entity_type id r).tombstones ≡ r.tombstones)
  unfolding delete_entity_row
  delete_entity_row-bookkeeping document id r = delete_row-bookkeeping "content_items" id r
  delete_entity_row-bookkeeping highlight id r = delete_row-bookkeeping "content_items" id r
  delete_entity_row-bookkeeping tag id r = delete_row-bookkeeping "tags" id r
  delete_entity_row-bookkeeping collection id r = delete_row-bookkeeping "collections" id r
  delete_entity_row-bookkeeping note id r = delete_row-bookkeeping "notes" id r
  delete_entity_row-bookkeeping feed_subscription id r = delete_row-bookkeeping "feeds" id r
  delete_entity_row-bookkeeping settings id r = delete_row-bookkeeping "settings" id r
  delete_entity_row-bookkeeping review_card id r = delete_row-bookkeeping "review_cards" id r
  delete_entity_row-bookkeeping _ id r = (refl, refl)

  upsert_fields : EntityType → String → FieldMap V → Rows V → Result StorageError (Rows V)
  unfolding upsert_single insert_append_only upsert_highlight
  upsert_fields document id fields =
      upsert_single json sql "content_items" id fields document_defaults
  upsert_fields tag id fields = upsert_single json sql "tags" id fields tag_defaults
  upsert_fields collection id fields =
      upsert_single json sql "collections" id fields collection_defaults
  upsert_fields note id fields = upsert_single json sql "notes" id fields note_defaults
  upsert_fields feed_subscription id fields = upsert_single json sql "feeds" id fields feed_defaults
  upsert_fields settings id fields = upsert_single json sql "settings" id fields settings_defaults
  upsert_fields review_card id fields =
      upsert_single json sql "review_cards" id fields review_card_defaults
  upsert_fields review_log id fields =
      insert_append_only json sql "review_logs" id fields review_log_defaults
  upsert_fields highlight id fields = upsert_highlight json sql id fields
  upsert_fields tag_edge id fields = λ rows. ok rows
  upsert_fields collection_edge id fields = λ rows. ok rows

  upsert_checked : EntityType → String → FieldMap V → Replica V → Result StorageError (Replica V)
  unfolding upsert_fields
  upsert_checked entity_type id fields r = reject_unknown_columns entity_type fields >>= λ _.
      upsert_fields entity_type id fields r.rows >>= λ rows. ok (record r { rows = rows })

  checked-rows_only :
      (t : EntityType) (id : String) (fields : FieldMap V) (r r' : Replica V)
      → upsert_checked t id fields r ≡ ok r'
      → r' ≡ record r { rows = r'.rows }
  unfolding upsert_checked
  checked-rows_only t id fields r r' h =
      let (_, _, k) = >>=-eq-ok (reject_unknown_columns t fields) _ h in
      let (rows, _, done) = >>=-eq-ok (upsert_fields t id fields r.rows) _ k in
      subst (λ (s : Replica V). s ≡ record r { rows = s.rows }) (ok-injective done) refl

  unfoldable pub write_entity_fields :
      EntityType → String → FieldMap V → Op → Replica V → Result StorageError (Replica V)
  unfolding upsert_checked
  write_entity_fields entity_type id fields delete r = ok (delete_entity_row entity_type id r)
  write_entity_fields entity_type id fields upsert r = upsert_checked entity_type id fields r
  write_entity_fields entity_type id fields field_patch r = upsert_checked entity_type id fields r

  -- A write of columns changes rows only.
  pub upsert-rows_only :
      (t : EntityType) (id : String) (fields : FieldMap V) (op : Op) (r r' : Replica V)
      → is_delete op ≡ false
      → write_entity_fields t id fields op r ≡ ok r'
      → r' ≡ record r { rows = r'.rows }
  unfolding write_entity_fields upsert_checked
  upsert-rows_only t id fields delete r r' d h = cc
  upsert-rows_only t id fields upsert r r' d h = checked-rows_only t id fields r r' h
  upsert-rows_only t id fields field_patch r r' d h = checked-rows_only t id fields r r' h

  -- The join table of an edge, and the row that its id names.
  unfoldable pub join_table : EntityType → Option String
  join_table tag_edge = some "content_item_tags"
  join_table collection_edge = some "content_item_collections"
  join_table _ = none

  -- `INSERT OR IGNORE` and `DELETE` of one join row.
  set_join : Membership → Bool → Replica V → Result StorageError (Replica V)
  set_join row true r = elim (sql.join_verdict r.rows row) [
    | admitted ↦ ok (record r { joins = put_row row tt r.joins })
    | refused ↦ ok r
    | orphaned ↦ err (constraint row.0)
  ]
  set_join row false r = ok (record r { joins = drop_row row r.joins })

  unfoldable pub apply_edge_membership :
      EntityType → String → Bool → Replica V → Result StorageError (Replica V)
  unfolding join_table set_join
  apply_edge_membership entity_type edge_id present r = split_edge_id edge_id >>= λ parts.
      elim (join_table entity_type) [
        | none ↦ err (generic "apply_edge_membership called with a non-edge entity")
        | some table ↦ set_join (table, parts) present r
      ]

  -- The id of the edge has two halves, and the row of these in the edge's own join table misses no
  -- parent.
  pub record HasParents (rows : Rows V) (t : EntityType) (edge_id : String) : Type 0 where
    pub table : String
    pub parts : String × String
    pub joins : join_table t ≡ some table
    pub split : split_edge_id edge_id ≡ ok parts
    pub parents : sql.join_verdict rows (table, parts) ≢ orphaned

  -- A write of join rows leaves the canonical rows and the edges.
  abbrev JoinsOnly : Replica V → Result StorageError (Replica V) → Type 0
  JoinsOnly r m = (r' : Replica V) × (m ≡ ok r') × (r'.set_edges ≡ r.set_edges) × (r'.rows ≡ r.rows)

  set_join-JoinsOnly :
      (row : Membership) (present : Bool) (r : Replica V)
      → sql.join_verdict r.rows row ≢ orphaned
      → JoinsOnly r (set_join row present r)
  unfolding set_join
  set_join-JoinsOnly row true r h = elim (Verdict-cases (sql.join_verdict r.rows row)) [
    | inl e ↦ (record r { joins = put_row row tt r.joins }, rw (set_join, e) refl, refl, refl)
    | inr (inl e) ↦ (r, rw (set_join, e) refl, refl, refl)
    | inr (inr e) ↦ absurd (h e)
  ]
  set_join-JoinsOnly row false r h = (record r { joins = drop_row row r.joins }, refl, refl, refl)

  pub apply_edge_membership-JoinsOnly :
      (t : EntityType) (id : String) (present : Bool) (r : Replica V)
      → HasParents r.rows t id
      → JoinsOnly r (apply_edge_membership t id present r)
  unfolding apply_edge_membership
  apply_edge_membership-JoinsOnly t id present r h =
      rw (h.split, h.joins) (set_join-JoinsOnly (h.table, h.parts) present r h.parents)
