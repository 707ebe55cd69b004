-- ===== src/Merge/Prose.antt =====
-- Authored prose under `merge_field` of crates/pergamon-core/src/sync/merge.rs: two devices and one
-- field.
use pergamon.Common.{
  true, false, false≢true, ◌∙◌, subst, Bool-cases, ◌≡◌, ◌≢◌, ◌⊎◌, inl, inr, refl, sym, ap, Option,
  none, some, Eq, arith,
}
use pergamon.Hlc.{Hlc, ◌<?◌}
use pergamon.Hlc.Facts.{flip, lt→le, lt_not_le, le_antisymm}
use pergamon.Merge.{
  conflict_copy, FieldMerge, MergeDecision, keep_local, take_incoming, keep_both, merge_field,
  is_causal,
}

some-injective : {A : Type 0} {x y : A} → ◌≡◌ {A = Option A} (some x) (some y) → x ≡ y
some-injective h = cc

module _ {V : Type 0} ⦃e : Eq V⦄ where
  -- The field as it stands after a decision: its value with its clock, and the losing value, if
  -- one is kept beside it.
  abbrev pub live : FieldMerge V → MergeDecision V → Option (V × Hlc)
  live m keep_local = m.stored
  live m take_incoming = some (m.incoming_value, m.incoming_clock)
  live m (keep_both winner winner_clock _ _) = some (winner, winner_clock)

  abbrev pub copied : MergeDecision V → Option (V × Hlc)
  copied keep_local = none
  copied take_incoming = none
  copied (keep_both _ _ loser loser_clock) = some (loser, loser_clock)

  -- The value is there after the decision: live or as the copy.
  abbrev pub Survives : V → FieldMerge V → MergeDecision V → Type 0
  Survives v m d = ((c : Hlc) × (live m d ≡ some (v, c))) ⊎ ((c : Hlc) × (copied d ≡ some (v, c)))

  abbrev pub Later : FieldMerge V → V → Hlc → Type 0
  Later m v c =
      ((c <? m.incoming_clock) ≡ true
        → live m (merge_field conflict_copy m) ≡ some (m.incoming_value, m.incoming_clock))
      × ((m.incoming_clock <? c) ≡ true → live m (merge_field conflict_copy m) ≡ some (v, c))

  -- What becomes of the held version.
  abbrev pub KeepsHeld : FieldMerge V → V → Hlc → Type 0
  KeepsHeld m v c =
      is_causal m.base_version c ≡ false
      → Survives v m (merge_field conflict_copy m) × (v ≢ m.incoming_value → Later m v c)

  abbrev edit : V → Hlc → V → Hlc → Option Hlc → FieldMerge V
  edit v c w d base = record {
    stored = some (v, c);
    incoming_value = w;
    incoming_clock = d;
    base_version = base;
  }

  keeps_equal :
      (v : V) (c : Hlc) (w : V) (d : Hlc) (base : Option Hlc)
      → e.beq v w ≡ true
      → Survives w (edit v c w d base) (merge_field conflict_copy (edit v c w d base))
        × KeepsHeld (edit v c w d base) v c
  unfolding merge_field
  keeps_equal v c w d base k =
      let same : v ≡ w = (e.beq_iff v w).0 k in
      elim (Bool-cases (c <? d)) [
        | inl p ↦
            rw (k, p)
              (
                inl (d, refl),
                λ h. (inl (d, ap (λ x. some (x, d)) (sym same)), λ ne. absurd (ne same)),
              )
        | inr p ↦
            rw (k, p)
              (inl (c, ap (λ x. some (x, c)) same), λ h. (inl (c, refl), λ ne. absurd (ne same)))
      ]

  keeps_both :
      (v : V) (c : Hlc) (w : V) (d : Hlc) (base : Option Hlc)
      → e.beq v w ≡ false
      → Survives w (edit v c w d base) (merge_field conflict_copy (edit v c w d base))
        × KeepsHeld (edit v c w d base) v c
  unfolding merge_field
  keeps_both v c w d base k = elim (Bool-cases (is_causal base c)) [
    | inl q ↦ rw (k, q) (inl (d, refl), λ h. cc)
    | inr q ↦ elim (Bool-cases (c <? d)) [
      | inl p ↦
          let not_later =
            λ (late : (d <? c) ≡ true). false≢true (sym (lt_not_le c d late) ∙ lt→le c d p) in
          rw (k, q, p)
            (
              inl (d, refl),
              λ h. (inr (c, refl), λ ne. (λ _. refl, λ late. absurd (not_later late))),
            )
      | inr p ↦ rw (k, q, p) (inr (d, refl), λ h. (inl (c, refl), λ ne. (λ early. cc, λ _. refl)))
    ]
  ]

  keeps_held :
      (v : V) (c : Hlc) (w : V) (d : Hlc) (base : Option Hlc)
      → Survives w (edit v c w d base) (merge_field conflict_copy (edit v c w d base))
        × KeepsHeld (edit v c w d base) v c
  keeps_held v c w d base = elim (Bool-cases (e.beq v w)) [
    | inl k ↦ keeps_equal v c w d base k
    | inr k ↦ keeps_both v c w d base k
  ]

  keeps_stored :
      (stored : Option (V × Hlc)) (w : V) (d : Hlc) (base : Option Hlc)
      → let m : FieldMerge V = record {
        stored = stored;
        incoming_value = w;
        incoming_clock = d;
        base_version = base;
      } in
        Survives w m (merge_field conflict_copy m)
        × ((v : V) (c : Hlc) → stored ≡ some (v, c) → KeepsHeld m v c)
  unfolding merge_field
  keeps_stored none w d base = (inl (d, refl), λ v c h. cc)
  keeps_stored (some (v', c')) w d base = (
    (keeps_held v' c' w d base).0,
    λ v c h.
        subst (λ (x : V × Hlc). KeepsHeld (edit v' c' w d base) x.0 x.1) (some-injective h)
          (keeps_held v' c' w d base).1,
  )

  -- However an edit of a conflict-copy field arrives, the value that it brings survives, live or as
  -- the copy; so does the value that was held, unless the writer had observed exactly that version;
  -- and where the values differ and the writer had not, the live value is that of the later clock.
  pub merge_field_keeps_prose :
      (m : FieldMerge V)
      → Survives m.incoming_value m (merge_field conflict_copy m)
        × ((v : V) (c : Hlc) → m.stored ≡ some (v, c) → KeepsHeld m v c)
  merge_field_keeps_prose m = keeps_stored m.stored m.incoming_value m.incoming_clock m.base_version

  -- Two devices that hold different versions of an authored field and receive each other's edit,
  -- neither writer having observed the other's version, agree on the live value, on its clock and
  -- on the copy that is kept.
  pub merge_field_symmetric :
      (v w : V) (c d : Hlc) (base base' : Option Hlc)
      → c ≢ d
      → is_causal base c ≡ false
      → is_causal base' d ≡ false
      → let here : FieldMerge V = record {
        stored = some (v, c);
        incoming_value = w;
        incoming_clock = d;
        base_version = base;
      } in
        let there : FieldMerge V = record {
          stored = some (w, d);
          incoming_value = v;
          incoming_clock = c;
          base_version = base';
        } in
        (live here (merge_field conflict_copy here) ≡ live there (merge_field conflict_copy there))
        × (copied (merge_field conflict_copy here) ≡ copied (merge_field conflict_copy there))
  unfolding merge_field
  merge_field_symmetric v w c d base base' nc h k = ground (
    arith,
    e.beq_iff v w,
    e.beq_iff w v,
    flip c d,
    flip d c,
    le_antisymm c d,
    lt_not_le c d,
    lt_not_le d c,
  )
