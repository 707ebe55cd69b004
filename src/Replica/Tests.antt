-- ===== src/Replica/Tests.antt =====
-- The apply layer at a small library, and instances of its theorems. Field values are texts. The
-- first engine admits every row, the second checks the parents of a join row.
use mathlib.Core.List.{Memᴰ}
use mathlib.Core.List.Perm
use pergamon.Common.{
  ◌≡◌, refl, inl, String, true, false, none, some, [], ◌∷◌, string_eq, All, ok, arith,
}
use pergamon.Hlc.{Hlc, new}
use pergamon.Event.{ChangeBody, EntityType, note, tag_edge, upsert, delete}
use pergamon.Replica.{
  Json, Sqlite, Replica, admitted, split_edge_id, tombstone, stored_clock, entity_clock, set_edge,
  entity_key_eq,
}
use pergamon.Common.Tables.{get_row-put_row_same}
use pergamon.Common.Texts.{split_once}
use pergamon.Replica.Writes.{HasParents, join_table, delete_entity_row}
use pergamon.Common.{Bool, ◌&&◌, str_eq, if◌then◌else◌}
use pergamon.Common.Tables.{get_row}
use pergamon.Merge.{strategy_for}
use pergamon.Replica.{Rows, orphaned, text_pair_eq, clock_key_eq}
use pergamon.Replica.Apply.{Cards, apply_delete, apply_fields, is_prose, observed_by}
use pergamon.Replica.Edges.{edges_converge, apply_all, IsEdgeChange}
use pergamon.Common.{Result}
use pergamon.Outbox.{OutboxRow}
use pergamon.Relay.{Bytes}
use pergamon.Replica.{StorageError}
use pergamon.Replica.Emission.{LocalStore, emit_change}
use pergamon.Replica.Observed.{emit_delete-hides_nothing}
use pergamon.Replica.Inbox.{apply_delete-keeps_prose, inboxed, HeldProse}
use pergamon.Replica.Late.{late_prose-inboxed}
use pergamon.Replica.Rows.{read_entity_fields}

abbrev json : Json String
json = record { as_bool = λ v. none; as_str = λ v. some v; text = λ s. s }

abbrev sql : Sqlite String
sql = record {
  column = λ table col v. v;
  unset = λ table col. "";
  insert_verdict = λ rows key row. admitted;
  update_verdict = λ rows key row. admitted;
  join_verdict = λ rows row. admitted;
  cascades = λ deleted key row. false;
  cascades_join = λ deleted row. false;
  set_null = λ deleted key row. row;
}

abbrev cards : Cards String
cards = record { recompute_review_card = λ card r. ok r; review_log_card_id = λ log r. ok none }

abbrev empty_replica : Replica String
empty_replica = record {
  rows = [];
  joins = [];
  clocks = [];
  set_edges = [];
  tombstones = [];
  conflicts = [];
}

abbrev first : Hlc
first = new 1 0 "a"

abbrev second : Hlc
second = new 2 0 "b"

abbrev add_tag : ChangeBody String
add_tag = record {
  entity_type = tag_edge;
  entity_id = "d:t";
  op = upsert;
  clock = first;
  base_version = none;
  fields = [];
  blob_manifest = [];
}

abbrev remove_tag : ChangeBody String
remove_tag = record add_tag { op = delete; clock = second }

-- The engine of the schema: a row of a join table needs the document and the tag, or the document and
-- the collection, that it names.
abbrev right_table : String → String
right_table table = if str_eq table "content_item_tags" then "tags" else "collections"

abbrev is_row : String → String → Rows String → Bool
is_row table id rows = elim (get_row (table, id) rows) [ none ↦ false | some _ ↦ true ]

abbrev strict : Sqlite String
strict = record sql {
  join_verdict = λ rows row.
      if is_row "content_items" row.1.0 rows && is_row (right_table row.0) row.1.1 rows
      then admitted
      else orphaned;
}

-- A document and a tag, and no collection.
abbrev tagged : Replica String
tagged = record empty_replica { rows = (("content_items", "d"), []) ∷ (("tags", "t"), []) ∷ [] }

ends_stored : HasParents json strict tagged.rows tag_edge "d:t"
unfolding split_edge_id split_once join_table
ends_stored = record {
  table = "content_item_tags";
  parts = ("d", "t");
  joins = refl;
  split = refl;
  parents = λ h. cc;
}

add_tag-IsEdgeChange : IsEdgeChange json strict cards tagged.rows add_tag
add_tag-IsEdgeChange = record { edge = inl refl; storable = omega arith; parents = ends_stored }

remove_tag-IsEdgeChange : IsEdgeChange json strict cards tagged.rows remove_tag
remove_tag-IsEdgeChange = record { edge = inl refl; storable = omega arith; parents = ends_stored }

edges_converge_example :
    (s s' : Replica String) × (apply_all json strict cards (add_tag ∷ remove_tag ∷ []) tagged
      ≡ ok s)
    × (apply_all json strict cards (remove_tag ∷ add_tag ∷ []) tagged ≡ ok s')
    × ((t : EntityType) (id : String) → set_edge t id s ≡ set_edge t id s')
unfolding set_edge
edges_converge_example =
    edges_converge json strict cards (add_tag ∷ remove_tag ∷ []) (remove_tag ∷ add_tag ∷ []) tagged
      (Perm.swap remove_tag add_tag []) (add_tag-IsEdgeChange, (remove_tag-IsEdgeChange, tt))
      (remove_tag-IsEdgeChange, (add_tag-IsEdgeChange, tt)) (λ t id. (refl, refl))

-- A note whose body was written at the first stamp, and its delete by a device that never saw it.
abbrev with_note : Replica String
with_note = record empty_replica {
  rows = (("notes", "n"), ("body", "text") ∷ []) ∷ [];
  clocks = ((note, ("n", "body")), first) ∷ [];
}

abbrev delete_note : ChangeBody String
delete_note = record add_tag { entity_type = note; entity_id = "n"; op = delete; clock = second }

apply_delete-keeps_prose_example :
    (r' : Replica String) × (apply_delete json sql cards delete_note with_note ≡ ok r')
    × (tombstone note "n" r' ≡ some (stored_clock second))
    × ((field : String) (value : String) (clock : Hlc)
        → HeldProse json sql cards delete_note with_note field value clock
        → observed_by none clock ≡ false
        → Memᴰ (inboxed delete_note field value clock) r'.conflicts)
apply_delete-keeps_prose_example = apply_delete-keeps_prose json sql cards delete_note with_note

-- The body of the note is such a text.
note_held : HeldProse json sql cards delete_note with_note "body" "text" first
unfolding read_entity_fields entity_clock strategy_for
note_held = record {
  fields = ("content_item_id", "") ∷ ("body", "text") ∷ [];
  row = refl;
  cell = Memᴰ.tail (Memᴰ.head refl);
  prose = refl;
  stamped = get_row-put_row_same ⦃e = clock_key_eq⦄ (note, ("n", "body")) first [];
}

-- An edit of the body that arrives after the delete.
abbrev late_edit : ChangeBody String
late_edit = record delete_note { op = upsert; clock = first; fields = ("body", "late") ∷ [] }

abbrev deleted : Replica String
deleted = record empty_replica { tombstones = ((note, "n"), second) ∷ [] }

late_prose-inboxed_example :
    ((r' : Replica String) (field value : String)
      → apply_fields json sql cards late_edit deleted ≡ ok r'
      → Memᴰ (field, value) late_edit.fields
      → is_prose note field ≡ true
      → Memᴰ (inboxed late_edit field value first) r'.conflicts)
    × (All (λ (c : String × String). is_prose note c.0 ≡ true) late_edit.fields
        → (r' : Replica String) × (apply_fields json sql cards late_edit deleted ≡ ok r')
          × (r'.rows ≡ deleted.rows)
          × (r'.clocks ≡ deleted.clocks))
unfolding tombstone
late_prose-inboxed_example =
    late_prose-inboxed json sql cards late_edit second deleted
      (get_row-put_row_same ⦃e = entity_key_eq⦄ (note, "n") second [])

-- The device that holds the note deletes it.
abbrev holder : LocalStore String
holder = record {
  replica = with_note;
  state = record { device_id = some "a"; hlc_wall_millis = 1; hlc_counter = 0 };
  outbox = [];
  local_seq = 1;
}

abbrev encoded : ChangeBody String → Result StorageError Bytes
encoded body = ok (7 ∷ [])

abbrev delete_sent : LocalStore String
delete_sent = record {
  replica = record empty_replica {
    clocks = ((note, ("n", "body")), first) ∷ [];
    tombstones = ((note, "n"), new 5 0 "a") ∷ [];
  };
  state = record { device_id = some "a"; hlc_wall_millis = 5; hlc_counter = 0 };
  outbox =
      record {
        change_id = "c";
        entity_type = note;
        entity_id = "n";
        op = delete;
        body = 7 ∷ [];
        blob_refs = [];
        local_seq = 1;
        acked_seq = none;
      }
      ∷ [];
  local_seq = 2;
}

delete_is_sent :
    emit_change json sql encoded "c" note "n" delete [] [] 5 holder ≡ ok (delete_sent, some "c")
unfolding emit_change delete_entity_row
delete_is_sent = refl

emit_delete-hides_nothing_example :
    (body : ChangeBody String) × (row : OutboxRow) × (delete_sent.outbox ≡ row ∷ [])
    × (encoded body ≡ ok row.body)
    × ((r : Replica String)
        → r.rows ≡ with_note.rows
        → r.clocks ≡ with_note.clocks
        → (r' : Replica String) × (apply_delete json sql cards body r ≡ ok r')
          × (r'.conflicts ≡ r.conflicts))
emit_delete-hides_nothing_example =
    emit_delete-hides_nothing json sql cards encoded "c" "a" "n" note [] [] 5 holder delete_sent
      (some "c") refl delete_is_sent
