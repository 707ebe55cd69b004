-- ===== src/Common/Maps.antt =====
-- Maps with text keys, Rust's `HashMap<String, V>`, as lists of entries.
use pergamon.Common.Tests.{if◌then◌else◌}
use Prim.Native.String.{String}
use mathlib.Core.Path.{◌≡◌}
use mathlib.Core.Option.{Option, none, some}
use mathlib.Core.List.{List, [], ◌∷◌}
use native.Mathlib.Omega.{arith}
use text.Mathlib.Text.{◌==◌ as str_eq}
use text.Mathlib.TextEquality.{eq_iff}

module _ {ℓ} {V : Type ℓ} where
  abbrev pub lookup : String → List (String × V) → Option V
  lookup key [] = none
  lookup key (entry ∷ map) = if str_eq entry.0 key then some entry.1 else lookup key map

  abbrev pub remove : String → List (String × V) → List (String × V)
  remove key [] = []
  remove key (entry ∷ map) =
      let rest = remove key map in if str_eq entry.0 key then rest else entry ∷ rest

  abbrev pub insert : String → V → List (String × V) → List (String × V)
  insert key v map = (key, v) ∷ remove key map

  pub lookup-remove :
      (x key : String) (map : List (String × V))
      → lookup x (remove key map) ≡ (if str_eq key x then none else lookup x map)
  lookup-remove x key [] = ground arith
  lookup-remove x key (entry ∷ map) =
      ground (arith, lookup-remove x key map, eq_iff entry.0 key, eq_iff entry.0 x, eq_iff key x)

  pub lookup-insert :
      (x key : String) (v : V) (map : List (String × V))
      → lookup x (insert key v map) ≡ (if str_eq key x then some v else lookup x map)
  lookup-insert x key v map = ground (arith, lookup-remove x key map)
