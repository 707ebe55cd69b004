-- ===== src/Event.antt =====
-- The body of one synced change, of crates/pergamon-core/src/sync/event.rs, and the wire names of
-- its two enumerations. A JSON value is a parameter `V` of the body, since the merge only compares
-- and copies it; a field map is its list of entries in key order, as `serde_json::Map` iterates.
pub mod Wire
mod Tests
use pergamon.Common.{ℕ, String, Option, none, some, List, str_eq, if◌then◌else◌}
use pergamon.Hlc.{Hlc}

pub data EntityType : Type 0 where
  document tag collection tag_edge collection_edge highlight note : EntityType
  review_card review_log feed_subscription settings : EntityType

pub data Op : Type 0 where
  upsert delete field_patch : Op

abbrev pub FieldMap : Type 0 → Type 0
FieldMap V = List (String × V)

pub record BlobManifestEntry : Type 0 where
  pub ct_hash : String
  pub role : String
  pub plaintext_hash : String
  pub plaintext_len : ℕ

pub record ChangeBody (V : Type 0) : Type 0 where
  pub entity_type : EntityType
  pub entity_id : String
  pub op : Op
  pub clock : Hlc
  pub base_version : Option Hlc
  pub fields : FieldMap V
  pub blob_manifest : List BlobManifestEntry

pub entity_as_str : EntityType → String
entity_as_str document = "document"
entity_as_str tag = "tag"
entity_as_str collection = "collection"
entity_as_str tag_edge = "tag_edge"
entity_as_str collection_edge = "collection_edge"
entity_as_str highlight = "highlight"
entity_as_str note = "note"
entity_as_str review_card = "review_card"
entity_as_str review_log = "review_log"
entity_as_str feed_subscription = "feed_subscription"
entity_as_str settings = "settings"

pub entity_from_wire : String → Option EntityType
entity_from_wire s =
    if str_eq s "document"
    then some document
    else if str_eq s "tag"
    then some tag
    else if str_eq s "collection"
    then some collection
    else if str_eq s "tag_edge"
    then some tag_edge
    else if str_eq s "collection_edge"
    then some collection_edge
    else if str_eq s "highlight"
    then some highlight
    else if str_eq s "note"
    then some note
    else if str_eq s "review_card"
    then some review_card
    else if str_eq s "review_log"
    then some review_log
    else if str_eq s "feed_subscription"
    then some feed_subscription
    else if str_eq s "settings"
    then some settings
    else none

pub op_as_str : Op → String
op_as_str upsert = "upsert"
op_as_str delete = "delete"
op_as_str field_patch = "field_patch"

pub op_from_wire : String → Option Op
op_from_wire s =
    if str_eq s "upsert"
    then some upsert
    else if str_eq s "delete"
    then some delete
    else if str_eq s "field_patch"
    then some field_patch
    else none
