-- ===== src/Common/Names.antt =====
-- Reading back the name of a value, by a chain of comparisons of texts.
use Prim.Native.String.{String}
use mathlib.Core.Path.{◌≡◌}
use mathlib.Core.Option.{Option, some, none}
use native.Mathlib.Omega.{arith}
use text.Mathlib.Text.{◌==◌}
use text.Mathlib.TextEquality.{eq_iff}
use pergamon.Common.Tests.{if◌then◌else◌}

module _ {A : Type 0} (name : A → String) (s : String) (a : A) where
  -- One link of the chain: either the text is the name of `x`, or the links that follow decide.
  pub link :
      (x : A) (rest : Option A)
      → (rest ≡ some a → s ≡ name a)
      → (if s == name x then some x else rest) ≡ some a
      → s ≡ name a
  link x rest later h = ground (arith, eq_iff s (name x), later)

  pub no_link : ◌≡◌ {A = Option A} none (some a) → s ≡ name a
  no_link h = cc
