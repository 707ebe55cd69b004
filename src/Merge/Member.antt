-- ===== src/Merge/Member.antt =====
-- Many changes of one membership edge under `merge_set_member` of
-- crates/pergamon-core/src/sync/merge.rs.
pub mod Slots
use mathlib.Core.List.{foldl, Perm, Memᴰ}
use pergamon.Common.{
  Bool, true, false, ◌≡◌, ◌≢◌, refl, sym, ◌∙◌, ap, ◌↔◌, Option, none, some, List, [], ◌∷◌, arith,
  All, All-mem, Bool-cases, subst, String-set, if◌then◌else◌,
}
use pergamon.Common.Folds.{foldl-perm, Commutes, foldl-step}
use pergamon.Hlc.{Hlc, ◌<?◌, ◌≤?◌}
use pergamon.Hlc.Facts.{lt-le_trans, le-lt_trans}
use pergamon.Merge.{
  SetMember, no_member, is_present, present_between, fold_slot, fold_member, merge_set_member,
}
use Slots.{
  EdgeChange, Latest, AtMost, Latest-fold_slot, Latest-skip, fold_slot_comm, fold_slot_idem,
}

unfoldable pub merge_edge : SetMember → EdgeChange → SetMember
merge_edge m (is_add, clock) = (merge_set_member m is_add clock).member

pub merge_edge_comm : Commutes merge_edge
unfolding merge_edge merge_set_member
merge_edge_comm m (true, a) (true, b) =
    ap (λ o. record m { add_clock = o }) (fold_slot_comm m.add_clock a b)
merge_edge_comm m (true, a) (false, b) = refl
merge_edge_comm m (false, a) (true, b) = refl
merge_edge_comm m (false, a) (false, b) =
    ap (λ o. record m { remove_clock = o }) (fold_slot_comm m.remove_clock a b)

-- The slots after one change.
pub merge_edge-slots :
    (m : SetMember) (add : Bool) (c : Hlc)
    → merge_edge m (add, c) ≡ (
        if add
        then record m { add_clock = fold_slot m.add_clock c }
        else record m { remove_clock = fold_slot m.remove_clock c })
unfolding merge_edge merge_set_member
merge_edge-slots m true c = refl
merge_edge-slots m false c = refl

merge_edge_idem : (m : SetMember) (c : EdgeChange) → merge_edge (merge_edge m c) c ≡ merge_edge m c
unfolding merge_edge merge_set_member
merge_edge_idem m (true, a) = ap (λ o. record m { add_clock = o }) (fold_slot_idem m.add_clock a)
merge_edge_idem m (false, a) =
    ap (λ o. record m { remove_clock = o }) (fold_slot_idem m.remove_clock a)

pub SetMember-set : IsSet SetMember
SetMember-set = hlevel String-set

-- Any two orders of the same adds and removes of a membership edge end in the same member, and a
-- change that is folded in twice in a row counts once.
pub merge_set_member_converges :
    (m : SetMember) (c : EdgeChange) (xs ys : List EdgeChange)
    → Perm xs ys
    → (foldl merge_edge m xs ≡ foldl merge_edge m ys)
      × (merge_edge (merge_edge m c) c ≡ merge_edge m c)
merge_set_member_converges m c xs ys p =
    (foldl-perm merge_edge SetMember-set merge_edge_comm p m, merge_edge_idem m c)

-- The two slots of a member after a history of changes hold the latest add and the latest remove.
abbrev Folded : SetMember → List EdgeChange → Type 0
Folded m xs = Latest true m.add_clock xs × Latest false m.remove_clock xs

Folded-merge_edge :
    (m : SetMember) (x : EdgeChange) (xs : List EdgeChange)
    → Folded m xs
    → Folded (merge_edge m x) (x ∷ xs)
unfolding merge_edge merge_set_member
Folded-merge_edge m (true, c) xs h = (
  Latest-fold_slot true m.add_clock c xs h.0,
  Latest-skip false true m.remove_clock c xs (λ e. cc) h.1,
)
Folded-merge_edge m (false, c) xs h = (
  Latest-skip true false m.add_clock c xs (λ e. cc) h.0,
  Latest-fold_slot false m.remove_clock c xs h.1,
)

Folded-foldl : (xs : List EdgeChange) → Folded (foldl merge_edge no_member xs) xs
Folded-foldl [] = (tt, tt)
Folded-foldl (x ∷ xs) =
    subst (λ m. Folded m (x ∷ xs)) (sym (foldl-step merge_edge merge_edge_comm no_member x xs))
      (Folded-merge_edge (foldl merge_edge no_member xs) x xs (Folded-foldl xs))

-- The change does not take away the add at clock `a`: it is an add, or a remove before `a`.
abbrev pub Spares : Hlc → EdgeChange → Type 0
Spares a (true, _) = Unit {0}
Spares a (false, r) = (r <? a) ≡ true

-- Some add is later than every remove.
abbrev pub HasLiveAdd : List EdgeChange → Type 0
HasLiveAdd xs = (a : Hlc) × Memᴰ (true, a) xs × All (Spares a) xs

Spares-none : (a : Hlc) (xs : List EdgeChange) → All (λ x. x.0 ≢ false) xs → All (Spares a) xs
Spares-none a [] h = tt
Spares-none a ((true, c) ∷ xs) h = (tt, Spares-none a xs h.1)
Spares-none a ((false, c) ∷ xs) h = absurd (h.0 refl)

Spares-some :
    (a r : Hlc) (xs : List EdgeChange) → (r <? a) ≡ true → AtMost false r xs → All (Spares a) xs
Spares-some a r [] lt h = tt
Spares-some a r ((true, c) ∷ xs) lt h = (tt, Spares-some a r xs lt h.1)
Spares-some a r ((false, c) ∷ xs) lt h =
    (le-lt_trans c r a (h.0 refl) lt, Spares-some a r xs lt h.1)

live_of_present :
    (add remove : Option Hlc) (xs : List EdgeChange)
    → Latest true add xs
    → Latest false remove xs
    → present_between add remove ≡ true
    → HasLiveAdd xs
unfolding present_between
live_of_present none remove xs h k p = cc
live_of_present (some a) none xs h k p = (a, h.0, Spares-none a xs k)
live_of_present (some a) (some r) xs h k p = (a, h.0, Spares-some a r xs p k.1)

present_of_live :
    (add remove : Option Hlc) (xs : List EdgeChange)
    → Latest true add xs
    → Latest false remove xs
    → HasLiveAdd xs
    → present_between add remove ≡ true
unfolding present_between
present_of_live none remove xs h k (a, m, s) = absurd (All-mem _ h m refl)
present_of_live (some b) none xs h k (a, m, s) = refl
present_of_live (some b) (some r) xs h k (a, m, s) =
    lt-le_trans r a b (All-mem (Spares a) s k.0) (All-mem _ h.1 m refl)

-- After any changes to a member that was never written, in whatever order, it is present if and only
-- if the clock of one of the adds is later than that of every remove. The clocks alone decide: an
-- add that no remove had seen, but whose clock is before that of some remove, does not count.
pub is_present-iff-HasLiveAdd :
    (xs : List EdgeChange) → (is_present (foldl merge_edge no_member xs) ≡ true) ↔ HasLiveAdd xs
unfolding is_present
is_present-iff-HasLiveAdd xs =
    let m = foldl merge_edge no_member xs in
    let (adds, removes) = Folded-foldl xs in
    (
      live_of_present m.add_clock m.remove_clock xs adds removes,
      present_of_live m.add_clock m.remove_clock xs adds removes,
    )
