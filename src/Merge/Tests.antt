-- ===== src/Merge/Tests.antt =====
-- The merge at small inputs, and instances of its theorems. Field values are texts.
use mathlib.Core.List.{foldl}
use mathlib.Core.List.Perm
use pergamon.Common.{
  String, true, false, ◌≡◌, ◌↔◌, refl, Option, none, some, List, [], ◌∷◌, string_eq,
}
use pergamon.Hlc.{Hlc, new, compare}
use pergamon.Merge.{
  no_member, is_present, merge_set_member, is_causal, FieldMerge, merge_field, conflict_copy, lww,
  strategy_for,
}
use pergamon.Event.{document}
use pergamon.Merge.Member.Slots.{EdgeChange}
use pergamon.Merge.Member.{
  merge_edge, merge_set_member_converges, is_present-iff-HasLiveAdd, HasLiveAdd,
}
use pergamon.Merge.Prose.{
  live, copied, Survives, KeepsHeld, merge_field_keeps_prose, merge_field_symmetric,
}
use pergamon.Merge.Writers.{write_field, merge_field_converges}

abbrev early : Hlc
early = new 1 0 "a"

abbrev late : Hlc
late = new 2 0 "b"

abbrev changes : List EdgeChange
changes = (true, early) ∷ (false, late) ∷ []

abbrev swapped : List EdgeChange
swapped = (false, late) ∷ (true, early) ∷ []

merge_set_member_converges_example :
    (foldl merge_edge no_member changes ≡ foldl merge_edge no_member swapped)
    × (merge_edge (merge_edge no_member (true, late)) (true, late)
        ≡ merge_edge no_member (true, late))
merge_set_member_converges_example =
    merge_set_member_converges no_member (true, late) changes swapped
      (Perm.swap (false, late) (true, early) [])

is_present-iff-HasLiveAdd_example :
    (is_present (foldl merge_edge no_member swapped) ≡ true) ↔ HasLiveAdd swapped
is_present-iff-HasLiveAdd_example = is_present-iff-HasLiveAdd swapped

removed : is_present (foldl merge_edge no_member swapped) ≡ false
unfolding is_present merge_edge merge_set_member compare
removed = refl

early≢late : early ≡ late → ⊥
early≢late e = cc

-- Two devices edited the same note; neither saw the other's text.
abbrev here : FieldMerge String
here = record {
  stored = some ("mine", early);
  incoming_value = "theirs";
  incoming_clock = late;
  base_version = none;
}

abbrev there : FieldMerge String
there = record {
  stored = some ("theirs", late);
  incoming_value = "mine";
  incoming_clock = early;
  base_version = none;
}

document_body : strategy_for document "body" ≡ conflict_copy
unfolding strategy_for
document_body = refl

merge_field_keeps_prose_example :
    Survives "theirs" here (merge_field conflict_copy here)
    × ((v : String) (c : Hlc) → here.stored ≡ some (v, c) → KeepsHeld here v c)
merge_field_keeps_prose_example = merge_field_keeps_prose here

merge_field_symmetric_example :
    (live here (merge_field conflict_copy here) ≡ live there (merge_field conflict_copy there))
    × (copied (merge_field conflict_copy here) ≡ copied (merge_field conflict_copy there))
unfolding is_causal
merge_field_symmetric_example =
    merge_field_symmetric "mine" "theirs" early late none none early≢late refl refl

-- The status that each stamp wrote.
abbrev written : Hlc → String
written c = c.device_id

abbrev no_base : Hlc → Option Hlc
no_base _ = none

merge_field_converges_example :
    foldl (write_field lww written no_base) none (early ∷ late ∷ [])
    ≡ foldl (write_field lww written no_base) none (late ∷ early ∷ [])
merge_field_converges_example =
    merge_field_converges lww written no_base (λ e. cc) (early ∷ late ∷ []) (late ∷ early ∷ [])
      (Perm.swap late early []) none
