-- ===== src/Go/Sort.antt =====
-- A stable sort by a Boolean order, for `sort.Strings` and `Values.Encode`.
pub mod Rearranged
use report_api.Prelude.{Bool, true, false, List, [], ◌∷◌}

module _ {ℓ} {A : Type ℓ} (lt : A → A → Bool) where
  -- Before the first entry that is greater.
  unfoldable pub insert : A → List A → List A
  insert a [] = a ∷ []
  insert a (x ∷ xs) = elim (lt a x) [ true ↦ a ∷ x ∷ xs | false ↦ x ∷ insert a xs ]

  unfoldable pub insert_all : List A → List A → List A
  insert_all sorted [] = sorted
  insert_all sorted (x ∷ xs) = insert_all (insert x sorted) xs

  unfoldable pub sort : List A → List A
  unfolding insert insert_all
  sort xs = insert_all [] xs
