-- ===== src/Order/Sorting.antt =====
-- A stable sort by insertion, and what it forgets of its input, for the order that a key gives.
pub mod Contents
use Prim.Native.Nat.{Ordering}
use mathlib.Core.List.{foldr, foldl, Memᴰ}
use pergamon.Common.{
  ◌≡◌, refl, sym, ap, ◌∙◌, subst, Bool, true, false, Bool-cases, ◌⊎◌, inl, inr, List, [], ◌∷◌,
  if◌then◌else◌, arith,
}
use pergamon.Order.{IsOrder, is_lt, reverse}

Ordering-cases : (o : Ordering) → (o ≡ Ordering.lt) ⊎ ((o ≡ Ordering.eq) ⊎ (o ≡ Ordering.gt))
Ordering-cases Ordering.lt = inl refl
Ordering-cases Ordering.eq = inr (inl refl)
Ordering-cases Ordering.gt = inr (inr refl)

module _ {A : Type 0} (cmp : A → A → Ordering) where
  -- Before the first element that is not less: equal elements keep their order.
  unfoldable pub insert_sorted : A → List A → List A
  insert_sorted a [] = a ∷ []
  insert_sorted a (x ∷ xs) = if is_lt (cmp x a) then x ∷ insert_sorted a xs else a ∷ x ∷ xs

  -- Rust's `sort_by`.
  unfoldable pub sort_by : List A → List A
  unfolding insert_sorted
  sort_by [] = []
  sort_by (x ∷ xs) = insert_sorted x (sort_by xs)

module _ {A K : Type 0} {cmp : K → K → Ordering} (ord : IsOrder cmp) (key : A → K) where
  abbrev pub by_key : A → A → Ordering
  by_key a b = cmp (key a) (key b)

  abbrev ins : A → List A → List A
  ins = insert_sorted by_key

  abbrev Swaps : A → A → List A → Type 0
  Swaps a b xs = ins a (ins b xs) ≡ ins b (ins a xs)

  ins_later : (a x : A) (xs : List A) → is_lt (by_key x a) ≡ true → ins a (x ∷ xs) ≡ x ∷ ins a xs
  unfolding insert_sorted
  ins_later a x xs h = rw (insert_sorted, h)

  ins_here : (a x : A) (xs : List A) → is_lt (by_key x a) ≡ false → ins a (x ∷ xs) ≡ a ∷ x ∷ xs
  unfolding insert_sorted
  ins_here a x xs h = rw (insert_sorted, h)

  lt_transport :
      (a b x : A) → by_key a b ≡ Ordering.lt → is_lt (by_key x a) ≡ true → is_lt (by_key x b) ≡ true
  lt_transport a b x h p = ground (arith, ord.lt_trans (key x) (key a) (key b))

  -- The earlier of two elements goes to the front, wherever the later one is.
  first_here :
      (a b x : A) (xs : List A)
      → is_lt (by_key x a) ≡ false
      → is_lt (by_key b a) ≡ false
      → ins a (ins b (x ∷ xs)) ≡ a ∷ ins b (x ∷ xs)
  first_here a b x xs q g = elim (Bool-cases (is_lt (by_key x b))) [
    | inl p ↦
        ap (ins a) (ins_later b x xs p)
        ∙ ins_here a x (ins b xs) q
        ∙ ap (◌∷◌ a) (sym (ins_later b x xs p))
    | inr p ↦
        ap (ins a) (ins_here b x xs p)
        ∙ ins_here a b (x ∷ xs) g
        ∙ ap (◌∷◌ a) (sym (ins_here b x xs p))
  ]

  insert_lt : (a b : A) (xs : List A) → by_key a b ≡ Ordering.lt → Swaps a b xs
  unfolding insert_sorted
  insert_lt a b [] h =
      let g : is_lt (by_key b a) ≡ false = ap is_lt (ord.cmp_flip (key a) (key b) ∙ ap reverse h) in
      let k : is_lt (by_key a b) ≡ true = ap is_lt h in ins_here a b [] g ∙ sym (ins_later b a [] k)
  insert_lt a b (x ∷ xs) h =
      let g : is_lt (by_key b a) ≡ false = ap is_lt (ord.cmp_flip (key a) (key b) ∙ ap reverse h) in
      let k : is_lt (by_key a b) ≡ true = ap is_lt h in
      elim (Bool-cases (is_lt (by_key x a))) [
        | inl q ↦
            let p = lt_transport a b x h q in
            ap (ins a) (ins_later b x xs p)
            ∙ ins_later a x (ins b xs) q
            ∙ ap (◌∷◌ x) (insert_lt a b xs h)
            ∙ sym (ins_later b x (ins a xs) p)
            ∙ ap (ins b) (sym (ins_later a x xs q))
        | inr q ↦
            first_here a b x xs q g
            ∙ sym (ap (ins b) (ins_here a x xs q) ∙ ins_later b a (x ∷ xs) k)
      ]

  -- Two insertions commute, where elements with one key are one element.
  insert_comm : (a b : A) (xs : List A) → (key a ≡ key b → a ≡ b) → Swaps a b xs
  insert_comm a b xs agree = elim (Ordering-cases (by_key a b)) [
    | inl h ↦ insert_lt a b xs h
    | inr (inl h) ↦ subst (λ c. Swaps a c xs) (agree (ord.eq_of_cmp (key a) (key b) h)) refl
    | inr (inr h) ↦ sym (insert_lt b a xs (ord.cmp_flip (key a) (key b) ∙ ap reverse h))
  ]

  -- The elements with the key of the given one are that one.
  abbrev pub Agrees : A → List A → Type 0
  Agrees a xs = (b : A) → Memᴰ b xs → key a ≡ key b → a ≡ b

  -- A list holds no two elements with one key.
  abbrev pub IsKeyed : List A → Type 0
  IsKeyed xs = (a b : A) → Memᴰ a xs → Memᴰ b xs → key a ≡ key b → a ≡ b

  abbrev onto : List A → List A → List A
  onto s xs = foldr ins s xs

  onto-ins : (a : A) (s xs : List A) → Agrees a xs → onto (ins a s) xs ≡ ins a (onto s xs)
  onto-ins a s [] h = refl
  onto-ins a s (x ∷ xs) h =
      ap (ins x) (onto-ins a s xs (λ b m. h b (Memᴰ.tail m)))
      ∙ sym (insert_comm a x (onto s xs) (h x (Memᴰ.head refl)))

  onto-sort : (xs : List A) → onto [] xs ≡ sort_by by_key xs
  unfolding sort_by
  onto-sort [] = refl
  onto-sort (x ∷ xs) = ap (ins x) (onto-sort xs)

  -- Two lists may be sorted into one another in either order.
  onto_comm :
      (xs ys : List A)
      → ((a b : A) → Memᴰ a xs → Memᴰ b ys → key a ≡ key b → a ≡ b)
      → onto (sort_by by_key ys) xs ≡ onto (sort_by by_key xs) ys
  unfolding sort_by
  onto_comm [] ys h = sym (onto-sort ys)
  onto_comm (x ∷ xs) ys h =
      ap (ins x) (onto_comm xs ys (λ a b m n. h a b (Memᴰ.tail m) n))
      ∙ sym (onto-ins x (sort_by by_key xs) ys (λ b n. h x b (Memᴰ.head refl) n))

  -- An element of a list may be sorted in last.
  sort_last :
      {a : A} (xs : List A)
      → IsKeyed xs
      → Memᴰ a xs
      → (rest : List A) × (sort_by by_key xs ≡ ins a rest)
  unfolding sort_by
  sort_last [] h m = elim m [ ]
  sort_last (x ∷ xs) h (Memᴰ.head e) =
      (sort_by by_key xs, ap (λ y. ins y (sort_by by_key xs)) (sym e))
  sort_last {a} (x ∷ xs) h (Memᴰ.tail m) =
      let (rest, e) = sort_last xs (λ b c m n. h b c (Memᴰ.tail m) (Memᴰ.tail n)) m in
      (ins x rest, ap (ins x) e ∙ insert_comm x a rest (h x a (Memᴰ.head refl) (Memᴰ.tail m)))

  -- A fold that passes over an element which it has just met says the same of two lists with the
  -- same elements.
  module _ {B : Type 0} (f : B → A → B) (again : (s : B) (a : A) → f (f s a) a ≡ f s a) where
    twice : (a : A) (xs : List A) (s : B) → foldl f s (ins a (ins a xs)) ≡ foldl f s (ins a xs)
    unfolding insert_sorted
    twice a [] s = ap (foldl f s) (ins_here a a [] (ap is_lt (ord.cmp_self (key a)))) ∙ again s a
    twice a (x ∷ xs) s = elim (Bool-cases (is_lt (by_key x a))) [
      | inl p ↦
          ap (λ l. foldl f s (ins a l)) (ins_later a x xs p)
          ∙ ap (foldl f s) (ins_later a x (ins a xs) p)
          ∙ twice a xs (f s x)
          ∙ sym (ap (foldl f s) (ins_later a x xs p))
      | inr p ↦
          ap (λ l. foldl f s (ins a l)) (ins_here a x xs p)
          ∙ ap (foldl f s) (ins_here a a (x ∷ xs) (ap is_lt (ord.cmp_self (key a))))
          ∙ ap (λ t. foldl f t (x ∷ xs)) (again s a)
          ∙ sym (ap (foldl f s) (ins_here a x xs p))
    ]

    absorbed :
        (s : B) (xs ys : List A)
        → IsKeyed ys
        → ((a : A) → Memᴰ a xs → Memᴰ a ys)
        → foldl f s (onto (sort_by by_key ys) xs) ≡ foldl f s (sort_by by_key ys)
    absorbed s [] ys h sub = refl
    absorbed s (x ∷ xs) ys h sub =
        let (rest, e) = sort_last ys h (sub x (Memᴰ.head refl)) in
        let moved : onto (sort_by by_key ys) xs ≡ ins x (onto rest xs) =
          ap (λ t. onto t xs) e
          ∙ onto-ins x rest xs (λ b m. h x b (sub x (Memᴰ.head refl)) (sub b (Memᴰ.tail m))) in
        ap (λ t. foldl f s (ins x t)) moved
        ∙ twice x (onto rest xs) s
        ∙ sym (ap (foldl f s) moved)
        ∙ absorbed s xs ys h (λ a m. sub a (Memᴰ.tail m))

    pub sort-same_elements :
        (s : B) (xs ys : List A)
        → IsKeyed xs
        → ((a : A) → Memᴰ a xs → Memᴰ a ys)
        → ((a : A) → Memᴰ a ys → Memᴰ a xs)
        → foldl f s (sort_by by_key xs) ≡ foldl f s (sort_by by_key ys)
    sort-same_elements s xs ys h sub sup =
        sym (absorbed s ys xs h sup)
        ∙ ap (foldl f s) (onto_comm ys xs (λ a b m n. h a b (sup a m) n))
        ∙ absorbed s xs ys (λ a b m n. h a b (sup a m) (sup b n)) sub
