-- ===== src/Slices.antt =====
-- `slices.Sort` and `slices.Contains`, by the order and the equality of the elements. The sort is
-- an insertion sort; elements that the order does not tell apart keep their order.
pub mod Sorted
use snmptune.Prelude.{ℕ, Bool, true, false, List, [], ◌∷◌, ◌||◌, if◌then◌else◌}

module _ {ℓ} {A : Type ℓ} (lt : A → A → Bool) where
  unfoldable pub insert : A → List A → List A
  insert a [] = a ∷ []
  insert a (x ∷ xs) = let rest = insert a xs in if lt x a then x ∷ rest else a ∷ x ∷ xs

  unfoldable pub sort : List A → List A
  unfolding insert
  sort [] = []
  sort (x ∷ xs) = insert x (sort xs)

module _ {ℓ} {A : Type ℓ} (eq : A → A → Bool) where
  unfoldable pub contains : List A → A → Bool
  contains [] a = false
  contains (x ∷ xs) a = eq x a || contains xs a
