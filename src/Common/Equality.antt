-- ===== src/Common/Equality.antt =====
-- Equality tests as an interface: Rust's `PartialEq` where it decides equality.
use mathlib.Core.Path.{◌≡◌, refl, sym, ◌∙◌}
use mathlib.Core.HLevel.{hedberg}
use mathlib.Core.Logic.{◌↔◌}
use mathlib.Core.Bool.{Bool, true, false, false≢true}
use Prim.Native.String.{String}
use text.Mathlib.Text.{◌==◌}
use text.Mathlib.TextEquality.{eq_iff}

pub record Eq {ℓ} (A : Type ℓ) : Type ℓ where
  pub beq : A → A → Bool
  pub beq_iff : (a b : A) → (beq a b ≡ true) ↔ (a ≡ b)

instance abbrev pub string_eq : Eq String
string_eq = record { beq = ◌==◌; beq_iff = eq_iff }

-- Texts have decidable equality, so they are a set.
pub String-discrete : Discrete String
String-discrete s t = go (s == t) refl
  where
    go : (b : Bool) → (s == t) ≡ b → Dec (s ≡ t)
    go true h = yes ((eq_iff s t).0 h)
    go false h = no (λ e. false≢true (sym h ∙ (eq_iff s t).1 e))

pub String-set : IsSet String
String-set = hedberg String-discrete

pub Eq-set {ℓ} : {A : Type ℓ} → Eq A → IsSet A
Eq-set {A} e = hedberg decide_eq
  where
    go : (a b : A) (t : Bool) → e.beq a b ≡ t → Dec (a ≡ b)
    go a b true h = yes ((e.beq_iff a b).0 h)
    go a b false h = no (λ k. false≢true (sym h ∙ (e.beq_iff a b).1 k))

    decide_eq : Discrete A
    decide_eq a b = go a b (e.beq a b) refl
