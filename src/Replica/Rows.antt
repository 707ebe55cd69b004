-- ===== src/Replica/Rows.antt =====
-- The reading of the canonical rows of an entity and the writing of one row, crates/pergamon-storage/src/sync.rs.
use pergamon.Common.{
  String, Option, none, some, List, [], ◌∷◌, ◌++◌, string_eq, Result, ok, err, ◌>>=◌,
}
use pergamon.Common.Maps.{lookup, insert, remove}
use pergamon.Common.Tables.{get_row, put_row, pair_eq}
use pergamon.Event.{
  EntityType, FieldMap, document, tag, collection, tag_edge, collection_edge, highlight, note,
  review_card, review_log, feed_subscription, settings,
}
use pergamon.Replica.{StorageError, constraint, Json, Sqlite, Rows, admitted, refused, orphaned}
use pergamon.Replica.Columns.{
  document_cols, tag_cols, collection_cols, note_cols, feed_cols, settings_cols, review_card_cols,
  review_log_cols,
}

-- `and_then(Value::as_str).unwrap_or(..)`
or_text : Option String → String → String
or_text none other = other
or_text (some s) _ = s

pub as_text : {V : Type 0} → Json V → Option V → Option String
as_text json none = none
as_text json (some v) = json.as_str v

module _ {V : Type 0} (sql : Sqlite V) where
  read_cells : String → FieldMap V → List String → FieldMap V
  read_cells table row [] = []
  read_cells table row (col ∷ cols) = elim (lookup col row) [
    | none ↦ (col, sql.unset table col) ∷ read_cells table row cols
    | some v ↦ (col, v) ∷ read_cells table row cols
  ]

  read_columns : String → String → List String → Rows V → Option (FieldMap V)
  unfolding read_cells
  read_columns table id cols rows = elim (get_row (table, id) rows) [
    | none ↦ none
    | some row ↦ some (read_cells table row cols)
  ]

  -- The title and the status are those of the shell, the other columns those of the annotation.
  read_highlight : String → Rows V → Option (FieldMap V)
  unfolding read_cells
  read_highlight id rows = elim (get_row ("content_items", id) rows) [
    | none ↦ none
    | some shell ↦ elim (get_row ("highlight_meta", id) rows) [
      | none ↦ none
      | some meta ↦ some (
          read_cells "content_items" shell ("title" ∷ "status" ∷ [])
          ++ read_cells "highlight_meta" meta (
              "quote_text" ∷ "note" ∷ "color" ∷ "position_start" ∷ "position_end" ∷ "source_item_id"
              ∷ []))
    ]
  ]

  unfoldable pub read_entity_fields : EntityType → String → Rows V → Option (FieldMap V)
  unfolding read_columns read_highlight
  read_entity_fields document id = read_columns "content_items" id document_cols
  read_entity_fields tag id = read_columns "tags" id tag_cols
  read_entity_fields collection id = read_columns "collections" id collection_cols
  read_entity_fields note id = read_columns "notes" id note_cols
  read_entity_fields feed_subscription id = read_columns "feeds" id feed_cols
  read_entity_fields settings id = read_columns "settings" id settings_cols
  read_entity_fields review_log id = read_columns "review_logs" id review_log_cols
  read_entity_fields review_card id = read_columns "review_cards" id review_card_cols
  read_entity_fields highlight id = read_highlight id
  read_entity_fields tag_edge id = λ _. none
  read_entity_fields collection_edge id = λ _. none

module _ {V : Type 0} (json : Json V) (sql : Sqlite V) where
  -- The row with the fields bound to its columns.
  set_columns : String → FieldMap V → FieldMap V → FieldMap V
  set_columns table [] row = row
  set_columns table ((col, v) ∷ fields) row =
      insert col (sql.column table col v) (set_columns table fields row)

  -- The provided fields, and the default of every column that they do not name.
  with_defaults : FieldMap V → List (String × String) → FieldMap V
  with_defaults fields [] = fields
  with_defaults fields ((col, default) ∷ defaults) =
      let rest = with_defaults fields defaults in
      elim (lookup col fields) [ none ↦ (col, json.text default) ∷ rest | some _ ↦ rest ]

  -- `UPDATE table SET fields WHERE id`, on a row that is there.
  update_row : String → String → FieldMap V → FieldMap V → Rows V → Result StorageError (Rows V)
  unfolding set_columns
  update_row table id fields row rows =
      let changed = set_columns table fields row in
      elim (sql.update_verdict rows (table, id) changed) [
        | admitted ↦ ok (put_row (table, id) changed rows)
        | _ ↦ err (constraint table)
      ]

  -- `INSERT INTO table (fields) ON CONFLICT(id) DO NOTHING`. The candidate row is checked first.
  insert_row : String → String → FieldMap V → Rows V → Result StorageError (Rows V)
  unfolding set_columns
  insert_row table id fields rows =
      let candidate = set_columns table fields [] in
      elim (sql.insert_verdict rows (table, id) candidate) [
        | admitted ↦ elim (get_row (table, id) rows) [
          | none ↦ ok (put_row (table, id) candidate rows)
          | some _ ↦ ok rows
        ]
        | _ ↦ err (constraint table)
      ]

  unfoldable pub upsert_single :
      String → String → FieldMap V → List (String × String) → Rows V → Result StorageError (Rows V)
  unfolding update_row insert_row with_defaults
  upsert_single table id [] defaults rows = insert_row table id (with_defaults [] defaults) rows
  upsert_single table id (field ∷ fields) defaults rows = elim (get_row (table, id) rows) [
    | some row ↦ update_row table id (field ∷ fields) row rows
    | none ↦ insert_row table id (with_defaults (field ∷ fields) defaults) rows
  ]

  -- `INSERT OR IGNORE`: a refused row is passed over, a row without its parent is an error.
  unfoldable pub insert_append_only :
      String → String → FieldMap V → List (String × String) → Rows V → Result StorageError (Rows V)
  unfolding set_columns with_defaults
  insert_append_only table id fields defaults rows =
      let candidate = set_columns table (with_defaults fields defaults) [] in
      elim (sql.insert_verdict rows (table, id) candidate) [
        | admitted ↦ elim (get_row (table, id) rows) [
          | none ↦ ok (put_row (table, id) candidate rows)
          | some _ ↦ ok rows
        ]
        | refused ↦ ok rows
        | orphaned ↦ err (constraint table)
      ]

  -- `INSERT INTO table (inserted) ON CONFLICT(id) DO UPDATE SET updated`.
  upsert_row : String → String → FieldMap V → FieldMap V → Rows V → Result StorageError (Rows V)
  unfolding update_row insert_row set_columns
  upsert_row table id inserted updated rows = elim (get_row (table, id) rows) [
    | none ↦ insert_row table id inserted rows
    | some row ↦ elim (sql.insert_verdict rows (table, id) (set_columns table inserted [])) [
      | admitted ↦ update_row table id updated row rows
      | _ ↦ err (constraint table)
    ]
  ]

  -- The columns of `highlight_meta` among the fields, and the text that it must have.
  annotation : FieldMap V → FieldMap V
  annotation fields = remove "status" (remove "title" fields)

  with_quote : FieldMap V → FieldMap V
  with_quote meta = elim (lookup "quote_text" meta) [
    | none ↦ ("quote_text", json.text "") ∷ meta
    | some _ ↦ meta
  ]

  unfoldable pub upsert_highlight : String → FieldMap V → Rows V → Result StorageError (Rows V)
  unfolding upsert_row annotation with_quote insert_row or_text as_text
  upsert_highlight id fields rows =
      let title = json.text (or_text (as_text json (lookup "title" fields)) "") in
      let status = json.text (or_text (as_text json (lookup "status" fields)) "inbox") in
      let meta = annotation fields in
      upsert_row "content_items" id
        (("title", title) ∷ ("content_type", json.text "highlight") ∷ ("status", status) ∷ [])
        (("title", title) ∷ ("status", status) ∷ []) rows
      >>= λ rows'. elim meta [
        | [] ↦ insert_row "highlight_meta" id (with_quote []) rows'
        | cell ∷ cells ↦
            upsert_row "highlight_meta" id (with_quote (cell ∷ cells)) (cell ∷ cells) rows'
      ]
