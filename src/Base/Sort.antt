-- ===== src/Base/Sort.antt =====
-- `sorted(set(xs))`: insertion into a strictly increasing list.
use mathlib.Core.Bool.{Bool}
use mathlib.Core.List.{List, [], ◌∷◌}
use goggles.Base.Tests.{if◌then◌else◌}
use goggles.Base.Equality.{Eq, ◌==◌}

module _ {ℓ} {A : Type ℓ} ⦃e : Eq A⦄ (le : A → A → Bool) where
  unfoldable pub insert_sorted : A → List A → List A
  insert_sorted a [] = a ∷ []
  insert_sorted a (x ∷ xs) =
      if a == x then x ∷ xs else if le a x then a ∷ x ∷ xs else x ∷ insert_sorted a xs

  unfoldable pub sorted_set : List A → List A
  unfolding insert_sorted
  sorted_set [] = []
  sorted_set (x ∷ xs) = insert_sorted x (sorted_set xs)
