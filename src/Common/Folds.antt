-- ===== src/Common/Folds.antt =====
-- Folds of steps that commute.
use mathlib.Core.List.{List, [], ◌∷◌, foldl, Perm}
use mathlib.Core.List.{Permᴰ}
use mathlib.Core.Logic.{∥∥₁_elim}
use mathlib.Core.Path.{◌≡◌, refl, ap, ◌∙◌}

module _ {ℓ κ} {S : Type κ} {A : Type ℓ} (f : S → A → S) where
  -- Two steps commute from every state.
  abbrev pub Commutes : Type (ℓ ⊔ κ)
  Commutes = (s : S) (a b : A) → f (f s a) b ≡ f (f s b) a

  foldl-permᴰ : Commutes → {xs ys : List A} → Permᴰ xs ys → (s : S) → foldl f s xs ≡ foldl f s ys
  foldl-permᴰ c Permᴰ.nil s = refl
  foldl-permᴰ c (Permᴰ.cons {a = a} {b = b} {l₁ = xs} e p) s =
      ap (λ x. foldl f (f s x) xs) e ∙ foldl-permᴰ c p (f s b)
  foldl-permᴰ c (Permᴰ.swap {a = a} {b = b} {a' = a'} {b' = b'} {l = l} e k) s =
      ap (λ t. foldl f t l) (ap (λ x. f (f s x) b) e ∙ ap (λ x. f (f s b') x) k ∙ c s b' a')
  foldl-permᴰ c (Permᴰ.trans p q) s = foldl-permᴰ c p s ∙ foldl-permᴰ c q s

  pub foldl-perm :
      IsSet S → Commutes → {xs ys : List A} → Perm xs ys → (s : S) → foldl f s xs ≡ foldl f s ys
  foldl-perm set c p s = ∥∥₁_elim p (set _ _) (λ d. foldl-permᴰ c d s)

  -- The first step may be made last.
  pub foldl-step :
      Commutes → (s : S) (a : A) (xs : List A) → foldl f s (a ∷ xs) ≡ f (foldl f s xs) a
  foldl-step c s a [] = refl
  foldl-step c s a (b ∷ xs) = ap (λ t. foldl f t xs) (c s a b) ∙ foldl-step c (f s b) a xs
