-- ===== src/Replica/Schedule.antt =====
-- The schedule of a card row, recomputed from the rows of its logs: `recompute_review_card` and what
-- it calls in crates/pergamon-storage/src/sync.rs.
use pergamon.Common.{
  ℕ, suc, ◌*◌, ◌/◌, String, Bool, false, ◌&&◌, Option, none, some, List, [], ◌∷◌, str_eq, leb,
  if◌then◌else◌, Result, ok, err, ◌>>=◌,
}
use pergamon.Common.Integers.{ℤ, pos, negsuc, neg, i64_max}
use pergamon.Common.Maps.{lookup, insert}
use pergamon.Common.Tables.{get_row, put_row}
use pergamon.Event.{FieldMap}
use pergamon.Replica.{StorageError, generic, Sqlite, Rows, Replica, text_pair_eq}
use pergamon.Replica.Apply.{Cards}
use pergamon.Review.{Floats, Rating, from_value, card_state_as_str, default_v5}
use pergamon.Review.Derive.{ReviewLogEntry, DerivedCard, derive_card_state}

-- What the driver makes of a column (none where the type of the column is not the one asked for),
-- what is bound to a statement, and the RFC 3339 texts of the `time` crate, in nanoseconds.
pub record Cells (V F : Type 0) : Type 0 where
  pub cast_integer : V → Option ℤ
  pub get_string : V → Option String
  pub text : String → V
  pub integer : ℕ → V
  pub real : F → V
  pub null : V
  pub parse_rfc3339 : String → Option ℤ
  pub format_rfc3339 : ℤ → Option String

-- The quotient by a million, towards zero.
div_million : ℤ → ℤ
div_million (pos n) = pos (n / 1000000)
div_million (negsuc n) = neg (pos (suc n / 1000000))

-- `i64::try_from(..).unwrap_or(0)`
i64_or_zero : ℤ → ℤ
i64_or_zero (pos n) = if leb n i64_max then pos n else pos 0
i64_or_zero (negsuc n) = if leb n i64_max then negsuc n else pos 0

mul_million : ℤ → ℤ
mul_million (pos n) = pos (n * 1000000)
mul_million (negsuc n) = neg (pos (suc n * 1000000))

-- `u32::try_from(..).ok().and_then(Rating::from_value)`
rating_of : ℤ → Option Rating
unfolding from_value
rating_of (pos n) = from_value n
rating_of (negsuc n) = none

required : {A : Type 0} → Option A → Result StorageError A
required none = err (generic "column type")
required (some a) = ok a

abbrev pub with_entry : Option ReviewLogEntry → List ReviewLogEntry → List ReviewLogEntry
with_entry none rest = rest
with_entry (some entry) rest = entry ∷ rest

module _ {V F : Type 0} (sql : Sqlite V) (cells : Cells V F) (fl : Floats F) where
  parse_epoch_millis : String → ℤ
  unfolding div_million i64_or_zero
  parse_epoch_millis s = elim (cells.parse_rfc3339 s) [
    | none ↦ pos 0
    | some nanos ↦ i64_or_zero (div_million nanos)
  ]

  millis_to_rfc3339 : ℤ → String
  unfolding mul_million
  millis_to_rfc3339 ms = elim (cells.format_rfc3339 (mul_million ms)) [ none ↦ "" | some s ↦ s ]

  unfoldable pub cell : String → FieldMap V → String → V
  cell table row col = elim (lookup col row) [ none ↦ sql.unset table col | some v ↦ v ]

  -- `card_id = ?1`
  unfoldable pub is_of_card : String → FieldMap V → Bool
  unfolding cell
  is_of_card card row = elim (cells.get_string (cell "review_logs" row "card_id")) [
    | none ↦ false
    | some found ↦ str_eq found card
  ]

  -- One row of the query: a rating out of range is passed over.
  unfoldable pub log_entry : String → FieldMap V → Result StorageError (Option ReviewLogEntry)
  unfolding cell rating_of parse_epoch_millis required
  log_entry id row =
      required (cells.cast_integer (cell "review_logs" row "rating")) >>= λ rating_val.
      required (cells.get_string (cell "review_logs" row "reviewed_at")) >>= λ reviewed_at.
      elim (rating_of rating_val) [
        | none ↦ ok none
        | some rating ↦ ok (
            some (record {
              id = id;
              reviewed_at_ms = parse_epoch_millis reviewed_at;
              rating = rating;
            }))
      ]

  unfoldable pub review_log_entries_for_card :
      String → Rows V → Result StorageError (List ReviewLogEntry)
  unfolding is_of_card log_entry
  review_log_entries_for_card card [] = ok []
  review_log_entries_for_card card ((key, row) ∷ rows) =
      review_log_entries_for_card card rows >>= λ rest.
      if str_eq key.0 "review_logs" && is_of_card card row
      then (log_entry key.1 row >>= λ found. ok (with_entry found rest))
      else ok rest

  real_or_null : Option F → V
  real_or_null none = cells.null
  real_or_null (some x) = cells.real x

  time_or : V → Option ℤ → V
  unfolding millis_to_rfc3339
  time_or other none = other
  time_or other (some ms) = cells.text (millis_to_rfc3339 ms)

  unfoldable pub set_cell : String → V → FieldMap V → FieldMap V
  set_cell col v = insert col (sql.column "review_cards" col v)

  -- The row that the UPDATE leaves; `due_at` stays where the derivation has none. No check of the
  -- schema is against it: the state is one of the four names, and the other columns take any value.
  unfoldable pub derived_row : DerivedCard F → FieldMap V → FieldMap V
  unfolding real_or_null time_or cell
  derived_row d row = set_cell "state" (cells.text (card_state_as_str d.state)) (
      set_cell "stability" (real_or_null d.stability) (
        set_cell "difficulty" (real_or_null d.difficulty) (
          set_cell "due_at" (time_or (cell "review_cards" row "due_at") d.due_at_ms) (
            set_cell "last_reviewed_at" (time_or cells.null d.last_reviewed_at_ms) (
              set_cell "review_count" (cells.integer d.review_count) (
                set_cell "lapse_count" (cells.integer d.lapse_count)
                  (set_cell "scheduled_days" (real_or_null d.scheduled_days) row)))))))

  write_derived_card_state : String → DerivedCard F → FieldMap V → Replica V → Replica V
  unfolding derived_row
  write_derived_card_state card d row r = record r {
    rows = put_row ("review_cards", card) (derived_row d row) r.rows;
  }

  -- The card is written only where it has a log.
  unfoldable pub recompute_from : String → FieldMap V → List ReviewLogEntry → Replica V → Replica V
  unfolding write_derived_card_state
  recompute_from card row [] r = r
  recompute_from card row (log ∷ logs) r =
      write_derived_card_state card (derive_card_state fl (default_v5 fl) (log ∷ logs)) row r

  unfoldable pub recompute_review_card : String → Replica V → Result StorageError (Replica V)
  unfolding review_log_entries_for_card recompute_from
  recompute_review_card card r = elim (get_row ("review_cards", card) r.rows) [
    | none ↦ ok r
    | some row ↦
        review_log_entries_for_card card r.rows >>= λ logs. ok (recompute_from card row logs r)
  ]

  pub review_log_card_id : String → Replica V → Result StorageError (Option String)
  unfolding cell required
  review_log_card_id log r = elim (get_row ("review_logs", log) r.rows) [
    | none ↦ ok none
    | some row ↦
        required (cells.get_string (cell "review_logs" row "card_id")) >>= λ card. ok (some card)
  ]

  -- The schedules that `apply_change` asks for.
  pub stored_cards : Cards V
  unfolding recompute_review_card review_log_card_id
  stored_cards = record {
    recompute_review_card = recompute_review_card;
    review_log_card_id = review_log_card_id;
  }
