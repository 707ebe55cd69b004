-- ===== src/Taxonomy/Tests.antt =====
-- An instance of the theorem on the names.
use pergamon.Common.{◌≡◌, ◌↔◌, ok, err}
use pergamon.Taxonomy.{
  inbox, pdf, unknown_document_status, unknown_content_type, status_as_str, status_from_str,
  type_as_str, type_from_str, from_str_iff,
}

from_str_iff_example :
    ((status_from_str "inbox" ≡ ok inbox) ↔ ("inbox" ≡ status_as_str inbox))
    × ((type_from_str "inbox" ≡ ok pdf) ↔ ("inbox" ≡ type_as_str pdf))
    × (status_from_str "inbox" ≡ err (unknown_content_type "inbox")
        → unknown_content_type "inbox" ≡ unknown_document_status "inbox")
    × (type_from_str "inbox" ≡ err (unknown_content_type "inbox")
        → unknown_content_type "inbox" ≡ unknown_content_type "inbox")
from_str_iff_example = from_str_iff "inbox" inbox pdf (unknown_content_type "inbox")
