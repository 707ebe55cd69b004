-- ===== src/Review/Derive.antt =====
-- The schedule of a card from its review logs, `derive_card_state` of
-- crates/pergamon-core/src/sync/review.rs.
use Prim.Native.Nat.{Ordering}
use mathlib.Core.List.{foldl}
use Prim.Native.String.{compare as compare_str}
use pergamon.Common.{
  ℕ, suc, ◌%◌, ◌^◌, String, Bool, false, ◌&&◌, Option, none, some, List, str_eq, if◌then◌else◌,
}
use pergamon.Common.Integers.{ℤ, compare, saturating_add_i64, saturating_sub_i64}
use pergamon.Order.{then_with, is_eq}
use pergamon.Order.Sorting.{sort_by}
use pergamon.Review.{
  Floats, CardState, new, Rating, is_again, MemoryState, Scheduler, ScheduleOutput, schedule,
}

pub record ReviewLogEntry : Type 0 where
  pub id : String
  pub reviewed_at_ms : ℤ
  pub rating : Rating

pub record DerivedCard (F : Type 0) : Type 0 where
  pub state : CardState
  pub stability : Option F
  pub difficulty : Option F
  pub last_reviewed_at_ms : Option ℤ
  pub due_at_ms : Option ℤ
  pub scheduled_days : Option F
  pub review_count : ℕ
  pub lapse_count : ℕ

-- The place of an entry in the replay.
abbrev pub entry_key : ReviewLogEntry → ℤ × String
entry_key e = (e.reviewed_at_ms, e.id)

abbrev pub compare_key : ℤ × String → ℤ × String → Ordering
compare_key a b = then_with (compare a.0 b.0) (compare_str a.1 b.1)

-- The local variables of the replay.
pub record Replay (F : Type 0) : Type 0 where
  pub memory : Option (MemoryState F)
  pub state : CardState
  pub last_ms : Option ℤ
  pub last_id : Option String
  pub due_at_ms : Option ℤ
  pub scheduled_days : Option F
  pub review_count : ℕ
  pub lapse_count : ℕ

-- `last_id == Some(..) && last_ms == Some(..)`
abbrev pub is_last : Option ℤ → Option String → ReviewLogEntry → Bool
is_last (some ms) (some id) entry = str_eq id entry.id && is_eq (compare ms entry.reviewed_at_ms)
is_last _ _ entry = false

abbrev pub no_replay : {F : Type 0} → Replay F
no_replay = record {
  memory = none;
  state = new;
  last_ms = none;
  last_id = none;
  due_at_ms = none;
  scheduled_days = none;
  review_count = 0;
  lapse_count = 0;
}

module _ {F : Type 0} (fl : Floats F) (sched : Scheduler F) where
  millis_per_day : F
  millis_per_day = fl.literal "86_400_000.0"

  elapsed_days : Option ℤ → ℤ → F
  unfolding millis_per_day
  elapsed_days none now = fl.literal "0.0"
  elapsed_days (some prev) now =
      fl.max (fl.div (fl.from_i64 (saturating_sub_i64 now prev)) millis_per_day) (fl.literal "0.0")

  unfoldable pub replayed : ReviewLogEntry → ScheduleOutput F → Replay F → Replay F
  unfolding millis_per_day
  replayed entry output s = record {
    memory = some output.memory;
    state = output.next_state;
    last_ms = some entry.reviewed_at_ms;
    last_id = some entry.id;
    due_at_ms = some (
        saturating_add_i64 entry.reviewed_at_ms
          (fl.to_i64 (fl.mul output.scheduled_days millis_per_day)));
    scheduled_days = some output.scheduled_days;
    review_count = suc s.review_count % 2 ^ 32;
    lapse_count = if is_again entry.rating then suc s.lapse_count % 2 ^ 32 else s.lapse_count;
  }

  unfoldable pub replay_entry : Replay F → ReviewLogEntry → Replay F
  unfolding elapsed_days replayed
  replay_entry s entry =
      if is_last s.last_ms s.last_id entry
      then s
      else replayed entry
          (schedule fl sched s.state s.memory (elapsed_days s.last_ms entry.reviewed_at_ms)
            entry.rating)
          s

  stability_of : Option (MemoryState F) → Option F
  stability_of none = none
  stability_of (some m) = some m.stability

  difficulty_of : Option (MemoryState F) → Option F
  difficulty_of none = none
  difficulty_of (some m) = some m.difficulty

  unfoldable pub derived : Replay F → DerivedCard F
  unfolding stability_of difficulty_of
  derived s = record {
    state = s.state;
    stability = stability_of s.memory;
    difficulty = difficulty_of s.memory;
    last_reviewed_at_ms = s.last_ms;
    due_at_ms = s.due_at_ms;
    scheduled_days = s.scheduled_days;
    review_count = s.review_count;
    lapse_count = s.lapse_count;
  }

  unfoldable pub derive_card_state : List ReviewLogEntry → DerivedCard F
  unfolding sort_by replay_entry derived
  derive_card_state logs =
      derived (
        foldl replay_entry no_replay
          (sort_by (λ a b. compare_key (entry_key a) (entry_key b)) logs))
