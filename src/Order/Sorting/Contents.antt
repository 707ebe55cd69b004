-- ===== src/Order/Sorting/Contents.antt =====
-- What a sort keeps of its input: how often a test holds, and that no two elements are alike.
use Prim.Native.Nat.{Ordering}
use pergamon.Common.{
  ℕ, suc, ◌≡◌, ◌≢◌, refl, sym, ap, ◌∙◌, Bool, Bool-cases, inl, inr, List, [], ◌∷◌, All, length,
  if◌then◌else◌, arith,
}
use pergamon.Order.{is_lt}
use pergamon.Order.Sorting.{insert_sorted, sort_by}

module _ {A : Type 0} where
  -- The number of elements that pass a test.
  abbrev pub count : (A → Bool) → List A → ℕ
  count p [] = 0
  count p (x ∷ xs) = if p x then suc (count p xs) else count p xs

  -- No two elements have one key.
  abbrev pub Apart : {K : Type 0} → (A → K) → List A → Type 0
  Apart key [] = Unit
  Apart key (x ∷ xs) = All (λ y. key x ≢ key y) xs × Apart key xs

  module _ (cmp : A → A → Ordering) where
    count-insert :
        (p : A → Bool) (a : A) (xs : List A) → count p (insert_sorted cmp a xs) ≡ count p (a ∷ xs)
    unfolding insert_sorted
    count-insert p a [] = refl
    count-insert p a (x ∷ xs) = elim (Bool-cases (is_lt (cmp x a))) [
      | inl q ↦ rw q (ground (arith, count-insert p a xs))
      | inr q ↦ rw q refl
    ]

    pub count-sort_by : (p : A → Bool) (xs : List A) → count p (sort_by cmp xs) ≡ count p xs
    unfolding sort_by
    count-sort_by p [] = refl
    count-sort_by p (x ∷ xs) =
        count-insert p x (sort_by cmp xs) ∙ ap (λ n. if p x then suc n else n) (count-sort_by p xs)

    length-insert : (a : A) (xs : List A) → length (insert_sorted cmp a xs) ≡ suc (length xs)
    unfolding insert_sorted
    length-insert a [] = refl
    length-insert a (x ∷ xs) = elim (Bool-cases (is_lt (cmp x a))) [
      | inl q ↦ rw q (ap suc (length-insert a xs))
      | inr q ↦ rw q refl
    ]

    pub length-sort_by : (xs : List A) → length (sort_by cmp xs) ≡ length xs
    unfolding sort_by
    length-sort_by [] = refl
    length-sort_by (x ∷ xs) = length-insert x (sort_by cmp xs) ∙ ap suc (length-sort_by xs)

    All-insert :
        (P : A → Type 0) (a : A) (xs : List A) → P a → All P xs → All P (insert_sorted cmp a xs)
    unfolding insert_sorted
    All-insert P a [] h hs = (h, tt)
    All-insert P a (x ∷ xs) h hs = elim (Bool-cases (is_lt (cmp x a))) [
      | inl q ↦ rw q (hs.0, All-insert P a xs h hs.1)
      | inr q ↦ rw q (h, hs)
    ]

    All-sort_by : (P : A → Type 0) (xs : List A) → All P xs → All P (sort_by cmp xs)
    unfolding sort_by
    All-sort_by P [] h = tt
    All-sort_by P (x ∷ xs) h = All-insert P x (sort_by cmp xs) h.0 (All-sort_by P xs h.1)

    Apart-insert :
        {K : Type 0} (key : A → K) (a : A) (xs : List A)
        → All (λ y. key a ≢ key y) xs
        → Apart key xs
        → Apart key (insert_sorted cmp a xs)
    unfolding insert_sorted
    Apart-insert key a [] h hs = (tt, tt)
    Apart-insert key a (x ∷ xs) h hs = elim (Bool-cases (is_lt (cmp x a))) [
      | inl q ↦ rw q (
        All-insert (λ y. key x ≢ key y) a xs (λ e. h.0 (sym e)) hs.0,
        Apart-insert key a xs h.1 hs.1,
      )
      | inr q ↦ rw q (h, hs)
    ]

    pub Apart-sort_by :
        {K : Type 0} (key : A → K) (xs : List A) → Apart key xs → Apart key (sort_by cmp xs)
    unfolding sort_by
    Apart-sort_by key [] h = tt
    Apart-sort_by key (x ∷ xs) h =
        Apart-insert key x (sort_by cmp xs) (All-sort_by (λ y. key x ≢ key y) xs h.0)
          (Apart-sort_by key xs h.1)
