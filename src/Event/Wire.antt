-- ===== src/Event/Wire.antt =====
-- The reading of the wire names of crates/pergamon-core/src/sync/event.rs.
use pergamon.Common.{String, some, ◌≡◌, ◌↔◌, refl, sym, ap, ◌∙◌, arith, eq_iff}
use pergamon.Common.Names.{link, no_link}
use pergamon.Event.{
  EntityType, Op, document, tag, collection, tag_edge, collection_edge, highlight, note,
  review_card, review_log, feed_subscription, settings, upsert, entity_as_str, entity_from_wire,
  op_as_str, op_from_wire,
}

entity_from_wire-as_str : (e : EntityType) → entity_from_wire (entity_as_str e) ≡ some e
unfolding entity_from_wire entity_as_str
entity_from_wire-as_str document = refl
entity_from_wire-as_str tag = refl
entity_from_wire-as_str _ = refl

entity_as_str-from_wire :
    (s : String) (e : EntityType) → entity_from_wire s ≡ some e → s ≡ entity_as_str e
unfolding entity_from_wire entity_as_str
entity_as_str-from_wire s e = link entity_as_str s e document _ (
    link entity_as_str s e tag _ (
      link entity_as_str s e collection _ (
        link entity_as_str s e tag_edge _ (
          link entity_as_str s e collection_edge _ (
            link entity_as_str s e highlight _ (
              link entity_as_str s e note _ (
                link entity_as_str s e review_card _ (
                  link entity_as_str s e review_log _ (
                    link entity_as_str s e feed_subscription _
                      (link entity_as_str s e settings _ (no_link entity_as_str s e)))))))))))

op_from_wire-as_str : (o : Op) → op_from_wire (op_as_str o) ≡ some o
unfolding op_from_wire op_as_str
op_from_wire-as_str upsert = refl
op_from_wire-as_str _ = refl

op_as_str-from_wire : (s : String) (o : Op) → op_from_wire s ≡ some o → s ≡ op_as_str o
unfolding op_from_wire op_as_str
op_as_str-from_wire s o h =
    ground (arith, eq_iff s "upsert", eq_iff s "delete", eq_iff s "field_patch")

-- A text is read as an entity type, or as an operation, exactly when it is the wire name of that
-- value: every name is read back, and no two values share one.
pub from_wire_iff :
    (s : String) (e : EntityType) (o : Op)
    → ((entity_from_wire s ≡ some e) ↔ (s ≡ entity_as_str e))
      × ((op_from_wire s ≡ some o) ↔ (s ≡ op_as_str o))
from_wire_iff s e o = (
  (entity_as_str-from_wire s e, λ h. rw h (entity_from_wire-as_str e)),
  (op_as_str-from_wire s o, λ h. rw h (op_from_wire-as_str o)),
)

pub entity_as_str-injective : (a b : EntityType) → entity_as_str a ≡ entity_as_str b → a ≡ b
entity_as_str-injective a b h =
    cc (sym (entity_from_wire-as_str a) ∙ ap entity_from_wire h ∙ entity_from_wire-as_str b)
