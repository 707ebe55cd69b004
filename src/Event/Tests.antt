-- ===== src/Event/Tests.antt =====
-- The wire names at one value of each enumeration.
use pergamon.Common.{◌≡◌, ◌↔◌, some}
use pergamon.Event.{tag_edge, field_patch, entity_as_str, entity_from_wire, op_as_str, op_from_wire}
use pergamon.Event.Wire.{from_wire_iff}

from_wire_iff_example :
    ((entity_from_wire "tag_edge" ≡ some tag_edge) ↔ ("tag_edge" ≡ entity_as_str tag_edge))
    × ((op_from_wire "tag_edge" ≡ some field_patch) ↔ ("tag_edge" ≡ op_as_str field_patch))
from_wire_iff_example = from_wire_iff "tag_edge" tag_edge field_patch
