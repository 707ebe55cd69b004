-- ===== src/Replica/Scheduled.antt =====
-- Devices with the same logs of a card agree on its schedule.
use mathlib.Core.List.{Memᴰ}
use pergamon.Common.{String, ◌≡◌, false, Bool, some, List, [], ◌∷◌, All, any, str_eq}
use pergamon.Common.Maps.{lookup}
use pergamon.Common.Tables.{get_row}
use pergamon.Event.{FieldMap}
use pergamon.Replica.{Sqlite, Rows, RowKey, Replica, text_pair_eq}
use pergamon.Replica.Logs.{IsOf}
use pergamon.Replica.Schedule.{Cells}
use pergamon.Review.{Floats}

-- The columns of a card that its schedule is kept in.
abbrev pub schedule_columns : List String
schedule_columns =
    "state" ∷ "stability" ∷ "difficulty" ∷ "due_at" ∷ "last_reviewed_at" ∷ "review_count"
    ∷ "lapse_count" ∷ "scheduled_days" ∷ []

module _ {V F : Type 0} (sql : Sqlite V) (cells : Cells V F) (fl : Floats F) where
  abbrev is_schedule : String → Bool
  is_schedule col = any (λ name. str_eq name col) schedule_columns

  -- The rows of the log table that belong to the card are in both tables.
  abbrev pub LogsIn : String → Rows V → Rows V → Type 0
  LogsIn card rows others =
      (id : String) (log : FieldMap V)
      → IsOf sql cells fl card log
      → Memᴰ {A = RowKey × FieldMap V} (("review_logs", id), log) rows
      → Memᴰ {A = RowKey × FieldMap V} (("review_logs", id), log) others

  -- What the recomputation leaves of the card's row, beside what it leaves on another device: the
  -- columns of the schedule agree, and each device keeps its other columns.
  pub record Agree (card : String) (row row' : FieldMap V) (r s : Replica V) : Type 0 where
    pub here : FieldMap V
    pub there : FieldMap V
    pub row_here : get_row ("review_cards", card) r.rows ≡ some here
    pub row_there : get_row ("review_cards", card) s.rows ≡ some there
    pub schedule : All (λ col. lookup col here ≡ lookup col there) schedule_columns
    pub kept_here : (col : String) → is_schedule col ≡ false → lookup col here ≡ lookup col row
    pub kept_there : (col : String) → is_schedule col ≡ false → lookup col there ≡ lookup col row'
