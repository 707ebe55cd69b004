-- ===== src/Merge/Writers.antt =====
-- Many writes of one field under `merge_field` of crates/pergamon-core/src/sync/merge.rs.
use mathlib.Core.List.{foldl, Perm}
use pergamon.Common.{
  ◌≡◌, ◌≢◌, sym, Option, none, some, List, Eq, arith, String-set, if◌then◌else◌, Eq-set, fun_ext,
  subst,
}
use pergamon.Common.Folds.{foldl-perm, Commutes}
use pergamon.Hlc.{Hlc, ◌<?◌}
use pergamon.Hlc.Facts.{lt→le, le_antisymm, lt_not_le, lt-le_trans, le_of_not-lt}
use pergamon.Merge.{ConflictStrategy, conflict_copy, FieldMerge, merge_field}
use pergamon.Merge.Prose.{live}

module _ {V : Type 0} (value : Hlc → V) where
  later : Option (V × Hlc) → Hlc → Option (V × Hlc)
  later none c = some (value c, c)
  later (some (v, k)) c = if k <? c then some (value c, c) else some (v, k)

  later_comm : Commutes later
  unfolding later
  later_comm none a b = ground (
    arith,
    le_antisymm a b,
    le_of_not-lt a b,
    le_of_not-lt b a,
    lt_not_le a b,
    lt_not_le b a,
    lt→le a b,
    lt→le b a,
  )
  later_comm (some (v, k)) a b = ground (
    arith,
    le_antisymm a b,
    le_of_not-lt a b,
    le_of_not-lt b a,
    lt_not_le a b,
    lt_not_le b a,
    le_of_not-lt k a,
    le_of_not-lt k b,
    lt-le_trans k a b,
    lt-le_trans k b a,
  )

module _ {V : Type 0} ⦃e : Eq V⦄ (s : ConflictStrategy) (value : Hlc → V)
    (base : Hlc → Option Hlc) where
  -- A write of the value that was stamped `c`, onto a field that holds `stored`.
  pub write_field : Option (V × Hlc) → Hlc → Option (V × Hlc)
  write_field stored c = live m (merge_field s m)
    where
      m : FieldMerge V
      m = record {
        stored = stored;
        incoming_value = value c;
        incoming_clock = c;
        base_version = base c;
      }

  write_field-later :
      s ≢ conflict_copy → (o : Option (V × Hlc)) (c : Hlc) → write_field o c ≡ later value o c
  unfolding write_field merge_field later
  write_field-later ne none c = ground arith
  write_field-later ne (some (v, k)) c = ground arith

  write_field_comm : s ≢ conflict_copy → Commutes write_field
  write_field_comm ne =
      subst (λ f. Commutes f) (fun_ext λ o. fun_ext λ c. sym (write_field-later ne o c))
        (later_comm value)

  -- A field whose strategy is any but conflict-copy ends in the same value with the same clock
  -- whatever the order in which the same writes arrive, where the value of a write is determined
  -- by its stamp.
  pub merge_field_converges :
      s ≢ conflict_copy
      → (xs ys : List Hlc) → Perm xs ys
      → (stored : Option (V × Hlc)) → foldl write_field stored xs ≡ foldl write_field stored ys
  merge_field_converges ne xs ys p =
      foldl-perm write_field (hlevel (Eq-set e, String-set)) (write_field_comm ne) p
