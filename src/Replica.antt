-- ===== src/Replica.antt =====
-- The tables of one device that synced changes are merged into: the canonical rows and join tables
-- of the schema, and the bookkeeping tables of crates/pergamon-storage/src/sync.rs. What SQLite
-- decides by the schema and what a JSON value is are fields of `Sqlite` and `Json`.
pub mod Columns
pub mod Rows
pub mod Writes
pub mod Apply
pub mod Inbox
pub mod Late
pub mod Edges
pub mod Schedule
pub mod Emission
pub mod Observed
pub mod Logs
pub mod Scheduled
mod Tests
use Prim.Native.Char.{code}
use Prim.Native.String.{[] as empty_text, ◌∷◌ as text_cons}
use pergamon.Common.{
  ℕ, String, Bool, true, false, ◌&&◌, Option, none, some, List, [], ◌∷◌, any, min, ◌≡◌, ◌↔◌, ap,
  sym, ◌∙◌, subst, str_eq, eq_iff, ◌==◌, if◌then◌else◌, Eq, string_eq, Result, ok, err,
}
use pergamon.Common.Tables.{get_row, put_row, drop_row, pair_eq}
use pergamon.Common.Texts.{split_once}
use pergamon.Hlc.{Hlc}
use pergamon.Event.{EntityType, FieldMap, entity_as_str}
use pergamon.Event.Wire.{entity_as_str-injective}
use pergamon.Merge.{SetMember, no_member}

-- SQL compares the `entity_type` column by its text.
instance abbrev pub entity_eq : Eq EntityType
entity_eq = record {
  beq = λ a b. str_eq (entity_as_str a) (entity_as_str b);
  beq_iff = λ a b. (
    λ h. entity_as_str-injective a b ((eq_iff (entity_as_str a) (entity_as_str b)).0 h),
    λ h. (eq_iff (entity_as_str a) (entity_as_str b)).1 (ap entity_as_str h),
  );
}

instance abbrev pub text_pair_eq : Eq (String × String)
text_pair_eq = pair_eq

instance abbrev pub clock_key_eq : Eq (EntityType × (String × String))
clock_key_eq = pair_eq ⦃a = entity_eq⦄ ⦃b = text_pair_eq⦄

instance abbrev pub entity_key_eq : Eq (EntityType × String)
entity_key_eq = pair_eq ⦃a = entity_eq⦄ ⦃b = string_eq⦄

pub data StorageError : Type 0 where
  constraint generic : String → StorageError

-- `serde_json::Value`: its `as_bool` and `as_str`, and the value of a text.
pub record Json (V : Type 0) : Type 0 where
  pub as_bool : V → Option Bool
  pub as_str : V → Option String
  pub text : String → V

-- A canonical row is at its table and its id; it holds the columns that a statement has set.
abbrev pub RowKey : Type 0
RowKey = String × String

abbrev pub Rows : Type 0 → Type 0
Rows V = List (RowKey × FieldMap V)

-- A row of a join table: the table, the left and the right id.
abbrev pub Membership : Type 0
Membership = String × (String × String)

instance abbrev pub membership_eq : Eq (String × (String × String))
membership_eq = pair_eq ⦃a = string_eq⦄ ⦃b = text_pair_eq⦄

-- What the checks of a schema say of a row: it may be written, a NOT NULL, UNIQUE or CHECK
-- constraint is against it, or it refers to a row that is missing.
pub data Verdict : Type 0 where
  admitted refused orphaned : Verdict

-- The database engine over the schema of crates/pergamon-storage/migrations: the value that a
-- column gives back for one that was bound to it, the value of a column that no statement set, the
-- checks of an inserted, of an updated and of a join row, what ON DELETE CASCADE takes along with a
-- deleted row, and what ON DELETE SET NULL leaves of a row that stays.
pub record Sqlite (V : Type 0) : Type 0 where
  pub column : String → String → V → V
  pub unset : String → String → V
  pub insert_verdict : Rows V → RowKey → FieldMap V → Verdict
  pub update_verdict : Rows V → RowKey → FieldMap V → Verdict
  pub join_verdict : Rows V → Membership → Verdict
  pub cascades : RowKey → RowKey → FieldMap V → Bool
  pub cascades_join : RowKey → Membership → Bool
  pub set_null : RowKey → RowKey → FieldMap V → FieldMap V

pub record Conflict (V : Type 0) : Type 0 where
  pub entity_type : EntityType
  pub entity_id : String
  pub field : String
  pub loser_value : V
  pub loser_clock : Hlc

abbrev pub ClockKey : Type 0
ClockKey = EntityType × (String × String)

abbrev pub EntityKey : Type 0
EntityKey = EntityType × String

pub record Replica (V : Type 0) : Type 0 where
  pub rows : Rows V
  pub joins : List (Membership × Unit {0})
  pub clocks : List (ClockKey × Hlc)
  pub set_edges : List (EntityKey × SetMember)
  pub tombstones : List (EntityKey × Hlc)
  pub conflicts : List (Conflict V)

abbrev pub i64_max : ℕ
i64_max = 9223372036854775807

-- `i64::try_from(clock.wall_millis).unwrap_or(i64::MAX)`
abbrev pub stored_clock : Hlc → Hlc
stored_clock c = record c { wall_millis = min i64_max c.wall_millis }

abbrev pub stored_option : Option Hlc → Option Hlc
stored_option none = none
stored_option (some c) = some (stored_clock c)

-- The row stands in its join table.
abbrev pub is_joined : Membership → List (Membership × Unit {0}) → Bool
is_joined row joins = elim (get_row row joins) [ none ↦ false | some _ ↦ true ]

module _ {V : Type 0} where
  pub entity_clock : EntityType → String → String → Replica V → Option Hlc
  entity_clock entity_type entity_id field r = get_row (entity_type, (entity_id, field)) r.clocks

  pub set_entity_clock : EntityType → String → String → Hlc → Replica V → Replica V
  set_entity_clock entity_type entity_id field clock r = record r {
    clocks = put_row (entity_type, (entity_id, field)) (stored_clock clock) r.clocks;
  }

  unfoldable pub set_edge : EntityType → String → Replica V → SetMember
  set_edge entity_type entity_id r = elim (get_row (entity_type, entity_id) r.set_edges) [
    | none ↦ no_member
    | some member ↦ member
  ]

  unfoldable pub save_set_edge : EntityType → String → SetMember → Replica V → Replica V
  save_set_edge entity_type entity_id member r = record r {
    set_edges =
        put_row (entity_type, entity_id)
          (record {
            add_clock = stored_option member.add_clock;
            remove_clock = stored_option member.remove_clock;
          })
          r.set_edges;
  }

  pub tombstone : EntityType → String → Replica V → Option Hlc
  tombstone entity_type entity_id r = get_row (entity_type, entity_id) r.tombstones

  pub set_tombstone : EntityType → String → Hlc → Replica V → Replica V
  set_tombstone entity_type entity_id clock r = record r {
    tombstones = put_row (entity_type, entity_id) (stored_clock clock) r.tombstones;
  }

  pub insert_conflict : EntityType → String → String → V → Hlc → Replica V → Replica V
  insert_conflict entity_type entity_id field loser_value loser_clock r = record r {
    conflicts =
        record {
          entity_type = entity_type;
          entity_id = entity_id;
          field = field;
          loser_value = loser_value;
          loser_clock = stored_clock loser_clock;
        }
        ∷ r.conflicts;
  }

pub split_edge_id : String → Result StorageError (String × String)
split_edge_id edge_id = elim (split_once 58 edge_id) [
  | none ↦ err (generic "malformed edge id")
  | some parts ↦ ok parts
]
