-- ===== src/Review/Tests.antt =====
-- Runs of the derived schedule, with whole numbers for the `f64`, and of its row in a small library
-- whose values are texts.
use mathlib.Core.List.{Memᴰ}
use pergamon.Common.{
  ◌≡◌, ◌≢◌, sym, ap, ◌∙◌, String, str_eq, false≢true, List, [], ◌∷◌, if◌then◌else◌, ◌==◌, false,
  some,
}
use pergamon.Common.Integers.{ℤ, pos, compare, ◌+ℤ◌, neg}
use pergamon.Event.{FieldMap}
use pergamon.Replica.{Sqlite, Rows, RowKey, Replica, admitted, text_pair_eq}
use pergamon.Replica.Schedule.{Cells}
use pergamon.Order.{is_lt}
use pergamon.Review.{Floats, default_v5, again, good}
use pergamon.Review.Derive.{ReviewLogEntry, entry_key, derive_card_state}
use pergamon.Review.Convergence.{derive_card_state-same_logs}
use pergamon.Review.Counts.{derive_card_state-counts}

abbrev larger : ℤ → ℤ → ℤ
larger x y = if is_lt (compare x y) then y else x

abbrev smaller : ℤ → ℤ → ℤ
smaller x y = if is_lt (compare x y) then x else y

abbrev whole : Floats ℤ
whole = record {
  literal = λ text. pos 1;
  add = λ x y. x +ℤ y;
  sub = λ x y. x +ℤ neg y;
  mul = smaller;
  div = λ x y. x;
  neg = neg;
  powf = λ x y. x;
  powi = λ x n. x;
  exp = λ x. x;
  exp_m1 = λ x. x;
  mul_add = λ x y z. z;
  max = larger;
  clamp = λ x low high. smaller (larger x low) high;
  lt = λ x y. is_lt (compare x y);
  from_u32 = pos;
  from_i64 = λ n. n;
  to_i64 = λ x. x;
}

abbrev log_a : ReviewLogEntry
log_a = record { id = "a"; reviewed_at_ms = pos 1000; rating = good }

abbrev log_b : ReviewLogEntry
log_b = record { id = "b"; reviewed_at_ms = pos 1000; rating = again }

abbrev at_home : List ReviewLogEntry
at_home = log_a ∷ log_b ∷ []

abbrev away : List ReviewLogEntry
away = log_b ∷ log_a ∷ log_b ∷ []

differ : entry_key log_a ≢ entry_key log_b
differ h = false≢true (ap (λ (k : ℤ × String). str_eq k.1 "b") h)

at_home-away : (e : ReviewLogEntry) → Memᴰ e at_home → Memᴰ e away
at_home-away e (Memᴰ.head h) = Memᴰ.tail (Memᴰ.head h)
at_home-away e (Memᴰ.tail (Memᴰ.head h)) = Memᴰ.head h
at_home-away e (Memᴰ.tail (Memᴰ.tail m)) = elim m [ ]

away-at_home : (e : ReviewLogEntry) → Memᴰ e away → Memᴰ e at_home
away-at_home e (Memᴰ.head h) = Memᴰ.tail (Memᴰ.head h)
away-at_home e (Memᴰ.tail (Memᴰ.head h)) = Memᴰ.head h
away-at_home e (Memᴰ.tail (Memᴰ.tail (Memᴰ.head h))) = Memᴰ.tail (Memᴰ.head h)
away-at_home e (Memᴰ.tail (Memᴰ.tail (Memᴰ.tail m))) = elim m [ ]

one_each :
    (e f : ReviewLogEntry) → Memᴰ e at_home → Memᴰ f at_home → entry_key e ≡ entry_key f → e ≡ f
one_each e f (Memᴰ.head p) (Memᴰ.head q) h = p ∙ sym q
one_each e f (Memᴰ.head p) (Memᴰ.tail (Memᴰ.head q)) h =
    elim (differ (ap entry_key (sym p) ∙ h ∙ ap entry_key q)) [ ]
one_each e f (Memᴰ.tail (Memᴰ.head p)) (Memᴰ.head q) h =
    elim (differ (ap entry_key (sym q) ∙ sym h ∙ ap entry_key p)) [ ]
one_each e f (Memᴰ.tail (Memᴰ.head p)) (Memᴰ.tail (Memᴰ.head q)) h = p ∙ sym q
one_each e f (Memᴰ.tail (Memᴰ.tail m)) n h = elim m [ ]
one_each e f (Memᴰ.head p) (Memᴰ.tail (Memᴰ.tail n)) h = elim n [ ]
one_each e f (Memᴰ.tail (Memᴰ.head p)) (Memᴰ.tail (Memᴰ.tail n)) h = elim n [ ]

derive_card_state-same_logs_example :
    derive_card_state whole (default_v5 whole) at_home
    ≡ derive_card_state whole (default_v5 whole) away
derive_card_state-same_logs_example =
    derive_card_state-same_logs whole (default_v5 whole) at_home away one_each at_home-away
      away-at_home

derive_card_state-counts_example :
    ((derive_card_state whole (default_v5 whole) at_home).review_count ≡ 2)
    × ((derive_card_state whole (default_v5 whole) at_home).lapse_count ≡ 1)
derive_card_state-counts_example =
    derive_card_state-counts whole (default_v5 whole) at_home ((differ, tt), (tt, tt))

abbrev sql : Sqlite String
sql = record {
  column = λ table col v. v;
  unset = λ table col. "";
  insert_verdict = λ rows key row. admitted;
  update_verdict = λ rows key row. admitted;
  join_verdict = λ rows row. admitted;
  cascades = λ deleted key row. false;
  cascades_join = λ deleted row. false;
  set_null = λ deleted key row. row;
}

abbrev cells : Cells String ℤ
cells = record {
  cast_integer = λ v. if str_eq v "3" then some (pos 3) else some (pos 1);
  get_string = λ v. some v;
  text = λ s. s;
  integer = λ n. if n == 2 then "2" else "1";
  real = λ x. "1.0";
  null = "";
  parse_rfc3339 = λ s. some (pos 1000000000);
  format_rfc3339 = λ nanos. some "1970-01-01T00:00:01Z";
}

abbrev card_fields : FieldMap String
card_fields = ("state", "new") ∷ []

-- The row as another device has it: moved to another item, and not reviewed so far.
abbrev other_fields : FieldMap String
other_fields = ("content_item_id", "i") ∷ ("state", "learning") ∷ []

abbrev log_fields : String → FieldMap String
log_fields rating =
    ("card_id", "c") ∷ ("rating", rating) ∷ ("reviewed_at", "1970-01-01T00:00:01Z") ∷ []

abbrev library : Rows String → Replica String
library rows = record {
  rows = rows;
  joins = [];
  clocks = [];
  set_edges = [];
  tombstones = [];
  conflicts = [];
}

abbrev desk : Replica String
desk = library (
    (("review_cards", "c"), card_fields)
    ∷ (("review_logs", "a"), log_fields "3")
    ∷ (("review_logs", "b"), log_fields "1")
    ∷ [])

abbrev phone : Replica String
phone = library (
    (("review_logs", "b"), log_fields "1")
    ∷ (("review_cards", "c"), other_fields)
    ∷ (("review_logs", "a"), log_fields "3")
    ∷ [])

abbrev swapped : List ReviewLogEntry
swapped = log_b ∷ log_a ∷ []

at_home-swapped : (e : ReviewLogEntry) → Memᴰ e at_home → Memᴰ e swapped
at_home-swapped e (Memᴰ.head h) = Memᴰ.tail (Memᴰ.head h)
at_home-swapped e (Memᴰ.tail (Memᴰ.head h)) = Memᴰ.head h
at_home-swapped e (Memᴰ.tail (Memᴰ.tail m)) = elim m [ ]

swapped-at_home : (e : ReviewLogEntry) → Memᴰ e swapped → Memᴰ e at_home
swapped-at_home e (Memᴰ.head h) = Memᴰ.tail (Memᴰ.head h)
swapped-at_home e (Memᴰ.tail (Memᴰ.head h)) = Memᴰ.head h
swapped-at_home e (Memᴰ.tail (Memᴰ.tail m)) = elim m [ ]

abbrev log_row : String → FieldMap String → RowKey × FieldMap String
log_row id log = (("review_logs", id), log)
