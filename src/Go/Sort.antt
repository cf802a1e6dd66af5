-- ===== src/Go/Sort.antt =====
-- `sort.Slice`, `sort.Strings` and `slices.Sort`: insertion sort by a strict order given as a test.
-- Elements of which neither is below the other keep their order, which Go leaves open.
pub mod Texts
pub mod Laws
use client_api.Prelude.{Bool, List, [], ◌∷◌, if◌then◌else◌}

module _ {ℓ} {A : Type ℓ} where
  unfoldable pub insert_sorted : (A → A → Bool) → A → List A → List A
  insert_sorted lt a [] = a ∷ []
  insert_sorted lt a (b ∷ bs) = if lt b a then b ∷ insert_sorted lt a bs else a ∷ b ∷ bs

  unfoldable pub sort : (A → A → Bool) → List A → List A
  unfolding insert_sorted
  sort lt [] = []
  sort lt (a ∷ as') = insert_sorted lt a (sort lt as')
