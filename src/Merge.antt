-- ===== src/Merge.antt =====
-- The conflict policy of crates/pergamon-core/src/sync/merge.rs: the table of strategies, the merge
-- of one field, and the observed-remove state of a membership edge. A JSON value is of a type `V`
-- with an equality test.
pub mod Member
pub mod Prose
pub mod Writers
mod Tests
use pergamon.Common.{String, Bool, true, false, Option, none, some, Eq, str_eq, ◌||◌, if◌then◌else◌}
use pergamon.Hlc.{Hlc, ◌<?◌, ◌≤?◌, compare}
use pergamon.Event.{
  EntityType, document, tag, collection, tag_edge, collection_edge, highlight, note, review_card,
  review_log, feed_subscription, settings,
}
use pergamon.Order.{is_lt, is_le, is_eq}

pub data ConflictStrategy : Type 0 where
  lww set_union_tombstone derived_merge conflict_copy : ConflictStrategy

unfoldable pub strategy_for : EntityType → String → ConflictStrategy
strategy_for document field =
    if str_eq field "content_text" || (str_eq field "body" || str_eq field "notes")
    then conflict_copy
    else lww
strategy_for tag field = lww
strategy_for collection field = lww
strategy_for tag_edge field = set_union_tombstone
strategy_for collection_edge field = set_union_tombstone
strategy_for highlight field = if str_eq field "note" then conflict_copy else lww
strategy_for note field = if str_eq field "body" then conflict_copy else lww
strategy_for review_card field = if str_eq field "enabled" then lww else derived_merge
strategy_for review_log field = lww
strategy_for feed_subscription field = lww
strategy_for settings field = lww

pub record FieldMerge (V : Type 0) : Type 0 where
  pub stored : Option (V × Hlc)
  pub incoming_value : V
  pub incoming_clock : Hlc
  pub base_version : Option Hlc

pub data MergeDecision (V : Type 0) : Type 0 where
  keep_local take_incoming : MergeDecision V
  keep_both : (winner : V) (winner_clock : Hlc) (loser : V) (loser_clock : Hlc) → MergeDecision V

-- `base_version.is_some_and(|base| base == local_clock)`
pub is_causal : Option Hlc → Hlc → Bool
is_causal none local_clock = false
is_causal (some base) local_clock = is_eq (compare base local_clock)

module _ {V : Type 0} where
  merge_lww : FieldMerge V → MergeDecision V
  merge_lww m = elim m.stored [
    | none ↦ take_incoming
    | some (_, local_clock) ↦ if local_clock <? m.incoming_clock then take_incoming else keep_local
  ]

module _ {V : Type 0} ⦃e : Eq V⦄ where
  concurrent : FieldMerge V → V → Hlc → MergeDecision V
  concurrent m local_value local_clock =
      if local_clock <? m.incoming_clock
      then keep_both m.incoming_value m.incoming_clock local_value local_clock
      else keep_both local_value local_clock m.incoming_value m.incoming_clock

  merge_conflict_copy : FieldMerge V → MergeDecision V
  unfolding concurrent is_causal
  merge_conflict_copy m = elim m.stored [
    | none ↦ take_incoming
    | some (local_value, local_clock) ↦
        if e.beq local_value m.incoming_value
        then (if local_clock <? m.incoming_clock then take_incoming else keep_local)
        else if is_causal m.base_version local_clock
        then take_incoming
        else concurrent m local_value local_clock
  ]

  by_strategy : ConflictStrategy → FieldMerge V → MergeDecision V
  by_strategy conflict_copy m = merge_conflict_copy m
  by_strategy _ m = merge_lww m

  pub merge_field : ConflictStrategy → FieldMerge V → MergeDecision V
  unfolding by_strategy merge_lww merge_conflict_copy
  merge_field = by_strategy

pub record SetMember : Type 0 where
  pub add_clock : Option Hlc
  pub remove_clock : Option Hlc

abbrev pub no_member : SetMember
no_member = record { add_clock = none; remove_clock = none }

present_between : Option Hlc → Option Hlc → Bool
present_between none _ = false
present_between (some _) none = true
present_between (some add) (some remove) = remove <? add

pub is_present : SetMember → Bool
unfolding present_between
is_present m = present_between m.add_clock m.remove_clock

pub record SetMergeOutcome : Type 0 where
  pub member : SetMember
  pub present : Bool

-- What becomes of the slot that the change writes: a later clock stays.
pub fold_slot : Option Hlc → Hlc → Option Hlc
fold_slot none incoming = some incoming
fold_slot (some existing) incoming = if incoming ≤? existing then some existing else some incoming

fold_member : SetMember → Bool → Hlc → SetMember
unfolding fold_slot
fold_member m true incoming = record m { add_clock = fold_slot m.add_clock incoming }
fold_member m false incoming = record m { remove_clock = fold_slot m.remove_clock incoming }

pub merge_set_member : SetMember → Bool → Hlc → SetMergeOutcome
unfolding fold_member is_present
merge_set_member stored incoming_is_add incoming_clock =
    let member = fold_member stored incoming_is_add incoming_clock in
    record { member = member; present = is_present member }
