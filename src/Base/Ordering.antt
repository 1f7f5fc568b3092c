-- ===== src/Base/Ordering.antt =====
-- `sorted(xs, key=...)`: stable insertion, for an order on the elements.
use goggles.Base.{
  ℕ, ◌+◌, ◌≡◌, refl, ap, ◌∙◌, inl, inr, Bool, true, false, List, [], ◌∷◌, ◌++◌, map, arith,
  if◌then◌else◌, Bool-cases, is_empty, All, All-map,
}

module _ {A : Type 0} (le : A → A → Bool) where
  unfoldable pub insert_by : A → List A → List A
  insert_by a [] = a ∷ []
  insert_by a (x ∷ xs) = if le a x then a ∷ x ∷ xs else x ∷ insert_by a xs

  unfoldable pub sort_by : List A → List A
  unfolding insert_by
  sort_by [] = []
  sort_by (x ∷ xs) = insert_by x (sort_by xs)

-- The sum of a measure over a list.
unfoldable pub total : {A : Type 0} → (A → ℕ) → List A → ℕ
total f [] = 0
total f (x ∷ xs) = f x + total f xs

pub total-append :
    {A : Type 0} (f : A → ℕ) (xs ys : List A) → total f (xs ++ ys) ≡ total f xs + total f ys
unfolding total
total-append f [] ys = omega arith
total-append f (x ∷ xs) ys = omega (arith, total-append f xs ys)

pub total-map :
    {A B : Type 0} (g : A → B) (f : B → ℕ) (xs : List A)
    → total f (map g xs) ≡ total (λ a. f (g a)) xs
unfolding total
total-map g f [] = refl
total-map g f (x ∷ xs) = ap (λ n. f (g x) + n) (total-map g f xs)

module _ {A : Type 0} (le : A → A → Bool) where
  total-insert_by :
      (f : A → ℕ) (a : A) (xs : List A) → total f (insert_by le a xs) ≡ f a + total f xs
  unfolding total insert_by
  total-insert_by f a [] = refl
  total-insert_by f a (x ∷ xs) = ground (arith, total-insert_by f a xs)

  -- Sorting keeps every sum.
  pub total-sort_by : (f : A → ℕ) (xs : List A) → total f (sort_by le xs) ≡ total f xs
  unfolding total sort_by
  total-sort_by f [] = refl
  total-sort_by f (x ∷ xs) =
      total-insert_by f x (sort_by le xs) ∙ ap (λ n. f x + n) (total-sort_by f xs)

  pub is_empty-sort_by : (x : A) (xs : List A) → is_empty (sort_by le (x ∷ xs)) ≡ false
  unfolding sort_by insert_by
  is_empty-sort_by x xs = inserted (sort_by le xs)
    where
      inserted : (ys : List A) → is_empty (insert_by le x ys) ≡ false
      inserted [] = refl
      inserted (y ∷ ys) = ground arith

  -- Each element is at most any that follows it.
  abbrev pub IsSorted : List A → Type 0
  IsSorted [] = Unit
  IsSorted (x ∷ xs) = All (λ y. le x y ≡ true) xs × IsSorted xs

  module _ (either : (a b : A) → le a b ≡ false → le b a ≡ true)
      (through : (a b c : A) → le a b ≡ true → le b c ≡ true → le a c ≡ true) where
    All-insert_by :
        (z a : A) (xs : List A)
        → le z a ≡ true
        → All (λ y. le z y ≡ true) xs
        → All (λ y. le z y ≡ true) (insert_by le a xs)
    unfolding insert_by
    All-insert_by z a [] h k = (h, tt)
    All-insert_by z a (x ∷ xs) h k = elim (Bool-cases (le a x)) [
      | inl p ↦ rw p (h, k)
      | inr p ↦ rw p (k.0, All-insert_by z a xs h k.1)
    ]

    insert_by-IsSorted : (a : A) (xs : List A) → IsSorted xs → IsSorted (insert_by le a xs)
    unfolding insert_by
    insert_by-IsSorted a [] h = (tt, tt)
    insert_by-IsSorted a (x ∷ xs) h = elim (Bool-cases (le a x)) [
      | inl p ↦ rw p ((p, All-map _ _ xs (λ y q. through a x y p q) h.0), h)
      | inr p ↦ rw p (All-insert_by x a xs (either a x p) h.0, insert_by-IsSorted a xs h.1)
    ]

    pub sort_by-IsSorted : (xs : List A) → IsSorted (sort_by le xs)
    unfolding sort_by
    sort_by-IsSorted [] = tt
    sort_by-IsSorted (x ∷ xs) = insert_by-IsSorted x (sort_by le xs) (sort_by-IsSorted xs)
