-- ===== src/Taxonomy.antt =====
-- The names of crates/pergamon-core/src/status.rs and crates/pergamon-core/src/content_type.rs, as
-- the database stores them.
mod Tests
use pergamon.Common.{
  String, ◌≡◌, ◌≢◌, ◌↔◌, refl, arith, str_eq, eq_iff, if◌then◌else◌, Result, ok, err,
}

pub data CoreError : Type 0 where
  unknown_document_status unknown_content_type unknown_card_state : String → CoreError

pub data DocumentStatus : Type 0 where
  inbox later reference reading archived discarded : DocumentStatus

pub data ContentType : Type 0 where
  feed_item article bookmark highlight pdf podcast_episode : ContentType

pub status_as_str : DocumentStatus → String
status_as_str inbox = "inbox"
status_as_str later = "later"
status_as_str reference = "reference"
status_as_str reading = "reading"
status_as_str archived = "archived"
status_as_str discarded = "discarded"

pub status_from_str : String → Result CoreError DocumentStatus
status_from_str s =
    if str_eq s "inbox"
    then ok inbox
    else if str_eq s "later"
    then ok later
    else if str_eq s "reference"
    then ok reference
    else if str_eq s "reading"
    then ok reading
    else if str_eq s "archived"
    then ok archived
    else if str_eq s "discarded"
    then ok discarded
    else err (unknown_document_status s)

pub type_as_str : ContentType → String
type_as_str feed_item = "feed_item"
type_as_str article = "article"
type_as_str bookmark = "bookmark"
type_as_str highlight = "highlight"
type_as_str pdf = "pdf"
type_as_str podcast_episode = "podcast_episode"

pub type_from_str : String → Result CoreError ContentType
type_from_str s =
    if str_eq s "feed_item"
    then ok feed_item
    else if str_eq s "article"
    then ok article
    else if str_eq s "bookmark"
    then ok bookmark
    else if str_eq s "highlight"
    then ok highlight
    else if str_eq s "pdf"
    then ok pdf
    else if str_eq s "podcast_episode"
    then ok podcast_episode
    else err (unknown_content_type s)

status_from_str-as_str : (x : DocumentStatus) → status_from_str (status_as_str x) ≡ ok x
unfolding status_from_str status_as_str
status_from_str-as_str inbox = refl
status_from_str-as_str _ = refl

type_from_str-as_str : (x : ContentType) → type_from_str (type_as_str x) ≡ ok x
unfolding type_from_str type_as_str
type_from_str-as_str feed_item = refl
type_from_str-as_str _ = refl

status_as_str-from_str :
    (s : String) (x : DocumentStatus) → status_from_str s ≡ ok x → s ≡ status_as_str x
unfolding status_from_str status_as_str
status_as_str-from_str s x h = ground (
  arith,
  eq_iff s "inbox",
  eq_iff s "later",
  eq_iff s "reference",
  eq_iff s "reading",
  eq_iff s "archived",
  eq_iff s "discarded",
)

type_as_str-from_str : (s : String) (x : ContentType) → type_from_str s ≡ ok x → s ≡ type_as_str x
unfolding type_from_str type_as_str
type_as_str-from_str s x h = ground (
  arith,
  eq_iff s "feed_item",
  eq_iff s "article",
  eq_iff s "bookmark",
  eq_iff s "highlight",
  eq_iff s "pdf",
  eq_iff s "podcast_episode",
)

-- A text is read as a status, or as a content type, exactly when it is the name of that value; an
-- error of either reading carries the text itself.
pub from_str_iff :
    (s : String) (x : DocumentStatus) (y : ContentType) (e : CoreError)
    → ((status_from_str s ≡ ok x) ↔ (s ≡ status_as_str x))
      × ((type_from_str s ≡ ok y) ↔ (s ≡ type_as_str y))
      × (status_from_str s ≡ err e → e ≡ unknown_document_status s)
      × (type_from_str s ≡ err e → e ≡ unknown_content_type s)
unfolding status_from_str type_from_str
from_str_iff s x y e = (
  (status_as_str-from_str s x, λ h. rw h (status_from_str-as_str x)),
  (type_as_str-from_str s y, λ h. rw h (type_from_str-as_str y)),
  λ h. ground arith,
  λ h. ground arith,
)
