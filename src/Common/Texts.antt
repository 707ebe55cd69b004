-- ===== src/Common/Texts.antt =====
-- Splitting a text at the first of a character, Rust's `split_once`.
use Prim.Native.Nat.{ℕ}
use Prim.Native.Char.{Char, code}
use Prim.Native.String.{String, [] as empty_text, ◌∷◌ as text_cons, ◌++◌ as append}
use Prim.Native.String.append
use pergamon.Common.Tests.{◌==◌, if◌then◌else◌}
use mathlib.Core.Path.{◌≡◌, refl}
use mathlib.Core.Bool.{false}
use mathlib.Core.Option.{Option, none, some}
use native.Mathlib.Omega.{arith}

unfoldable pub split_once : ℕ → String → Option (String × String)
split_once mark empty_text = none
split_once mark (text_cons c s) =
    let rest = split_once mark s in
    if code c == mark
    then some (empty_text, s)
    else elim rest [ none ↦ none | some (left, right) ↦ some (text_cons c left, right) ]

-- The character stands nowhere in the text.
abbrev pub Lacks : ℕ → String → Type 0
Lacks mark empty_text = Unit
Lacks mark (text_cons c s) = ((code c == mark) ≡ false) × Lacks mark s

pub split_once-append :
    (s t : String) (c : Char)
    → Lacks (code c) s
    → split_once (code c) (append s (text_cons c t)) ≡ some (s, t)
unfolding split_once
split_once-append empty_text t c h =
    rw (append.nil (text_cons c t)) (ground (arith, split_once (code c) t))
split_once-append (text_cons d s) t c h =
    rw (append.cons d s (text_cons c t)) (rw (h.0, split_once-append s t c h.1) refl)
