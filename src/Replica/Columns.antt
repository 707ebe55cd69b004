-- ===== src/Replica/Columns.antt =====
-- The columns of each synced entity in crates/pergamon-storage/src/sync.rs, in the order of the
-- source, with the defaults of a new row.
use pergamon.Common.{String, Bool, List, [], ◌∷◌, any, str_eq}
use pergamon.Event.{
  EntityType, document, tag, collection, tag_edge, collection_edge, highlight, note, review_card,
  review_log, feed_subscription, settings,
}

abbrev pub document_cols : List String
document_cols =
    "url" ∷ "title" ∷ "author" ∷ "content_type" ∷ "status" ∷ "content_text" ∷ "excerpt"
    ∷ "published_at" ∷ "read_at" ∷ []

abbrev pub tag_cols : List String
tag_cols = "name" ∷ []

abbrev pub collection_cols : List String
collection_cols = "name" ∷ "parent_id" ∷ "sort_order" ∷ []

abbrev pub note_cols : List String
note_cols = "content_item_id" ∷ "body" ∷ []

abbrev pub feed_cols : List String
feed_cols = "title" ∷ "url" ∷ "site_url" ∷ "description" ∷ "folder_id" ∷ []

abbrev pub settings_cols : List String
settings_cols = "value" ∷ []

abbrev pub highlight_cols : List String
highlight_cols =
    "title" ∷ "status" ∷ "quote_text" ∷ "note" ∷ "color" ∷ "position_start" ∷ "position_end"
    ∷ "source_item_id" ∷ []

abbrev pub review_card_cols : List String
review_card_cols =
    "content_item_id" ∷ "state" ∷ "stability" ∷ "difficulty" ∷ "due_at" ∷ "last_reviewed_at"
    ∷ "review_count" ∷ "lapse_count" ∷ "scheduled_days" ∷ []

abbrev pub review_log_cols : List String
review_log_cols =
    "card_id" ∷ "rating" ∷ "state_before" ∷ "stability_before" ∷ "difficulty_before" ∷ "state_after"
    ∷ "stability_after" ∷ "difficulty_after" ∷ "elapsed_days" ∷ "scheduled_days" ∷ "reviewed_at"
    ∷ []

abbrev pub document_defaults : List (String × String)
document_defaults = ("title", "") ∷ ("content_type", "article") ∷ ("status", "inbox") ∷ []

abbrev pub tag_defaults : List (String × String)
tag_defaults = ("name", "") ∷ []

abbrev pub collection_defaults : List (String × String)
collection_defaults = ("name", "") ∷ []

abbrev pub note_defaults : List (String × String)
note_defaults = ("body", "") ∷ []

abbrev pub feed_defaults : List (String × String)
feed_defaults = ("title", "") ∷ ("url", "") ∷ []

abbrev pub settings_defaults : List (String × String)
settings_defaults = ("value", "") ∷ []

abbrev pub review_card_defaults : List (String × String)
review_card_defaults = ("state", "new") ∷ []

abbrev pub review_log_defaults : List (String × String)
review_log_defaults = []

unfoldable pub allowed_columns : EntityType → List String
allowed_columns document = document_cols
allowed_columns tag = tag_cols
allowed_columns collection = collection_cols
allowed_columns note = note_cols
allowed_columns feed_subscription = feed_cols
allowed_columns settings = settings_cols
allowed_columns review_card = review_card_cols
allowed_columns review_log = review_log_cols
allowed_columns highlight = highlight_cols
allowed_columns tag_edge = []
allowed_columns collection_edge = []

abbrev pub has_column : String → List String → Bool
has_column col cols = any (λ c. str_eq c col) cols
