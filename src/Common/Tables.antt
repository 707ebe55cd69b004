-- ===== src/Common/Tables.antt =====
-- Tables with a primary key, as lists of entries: a statement reads, replaces or removes one row.
use pergamon.Common.Tests.{if◌then◌else◌}
use pergamon.Common.Equality.{Eq}
use mathlib.Core.Path.{◌≡◌, refl, ap}
use mathlib.Core.Logic.{◌↔◌}
use mathlib.Core.Bool.{Bool, true, ◌&&◌}
use mathlib.Core.Option.{Option, none, some}
use mathlib.Core.List.{List, [], ◌∷◌}
use native.Mathlib.Omega.{arith}

module _ {ℓ κ} {A : Type ℓ} {B : Type κ} ⦃a : Eq A⦄ ⦃b : Eq B⦄ where
  abbrev pub pair_beq : A × B → A × B → Bool
  pair_beq x y = a.beq x.0 y.0 && b.beq x.1 y.1

  pub pair_beq_iff : (x y : A × B) → (pair_beq x y ≡ true) ↔ (x ≡ y)
  pair_beq_iff (x0, x1) (y0, y1) = (
    λ h. ground (arith, a.beq_iff x0 y0, b.beq_iff x1 y1),
    λ h. ground (
      arith,
      a.beq_iff x0 y0,
      b.beq_iff x1 y1,
      ap (λ (p : A × B). p.0) h,
      ap (λ (p : A × B). p.1) h,
    ),
  )

  instance abbrev pub pair_eq : Eq (A × B)
  pair_eq = record { beq = pair_beq; beq_iff = pair_beq_iff }

module _ {ℓ κ} {K : Type ℓ} {V : Type κ} ⦃e : Eq K⦄ where
  abbrev pub get_row : K → List (K × V) → Option V
  get_row key [] = none
  get_row key (row ∷ rows) = if e.beq row.0 key then some row.1 else get_row key rows

  abbrev pub drop_row : K → List (K × V) → List (K × V)
  drop_row key [] = []
  drop_row key (row ∷ rows) =
      let rest = drop_row key rows in if e.beq row.0 key then rest else row ∷ rest

  abbrev pub put_row : K → V → List (K × V) → List (K × V)
  put_row key v rows = (key, v) ∷ drop_row key rows

  get_row-drop_row :
      (x key : K) (rows : List (K × V))
      → get_row x (drop_row key rows) ≡ (if e.beq key x then none else get_row x rows)
  get_row-drop_row x key [] = ground arith
  get_row-drop_row x key (row ∷ rows) =
      ground (
        arith,
        get_row-drop_row x key rows,
        e.beq_iff row.0 key,
        e.beq_iff row.0 x,
        e.beq_iff key x,
      )

  pub get_row-put_row :
      (x key : K) (v : V) (rows : List (K × V))
      → get_row x (put_row key v rows) ≡ (if e.beq key x then some v else get_row x rows)
  get_row-put_row x key v rows = ground (arith, get_row-drop_row x key rows)

  pub get_row-put_row_same :
      (key : K) (v : V) (rows : List (K × V)) → get_row key (put_row key v rows) ≡ some v
  get_row-put_row_same key v rows = rw ((e.beq_iff key key).1 refl) refl

  -- Reading with a value for the row that is not there.
  pub row_or-put_row :
      (x key : K) (d v : V) (rows : List (K × V))
      → (elim (get_row x (put_row key v rows)) as (λ _. V) [ none ↦ d | some m ↦ m ])
        ≡ (if e.beq key x then v else elim (get_row x rows) as (λ _. V) [ none ↦ d | some m ↦ m ])
  row_or-put_row x key d v rows = ground (arith, get_row-put_row x key v rows)
