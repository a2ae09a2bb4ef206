-- ===== src/Prelude/Sorting.antt =====
-- Insertion sort by a test, for what ORDER BY gives.
use wakewake.Prelude.Tests.{if◌then◌else◌}
use mathlib.Core.Bool.{Bool}
use mathlib.Core.List.{List, [], ◌∷◌}

module _ {A : Type 0} (precedes : A → A → Bool) where
  unfoldable pub insert_sorted : A → List A → List A
  insert_sorted x [] = x ∷ []
  insert_sorted x (y ∷ ys) = if precedes x y then x ∷ y ∷ ys else y ∷ insert_sorted x ys

  unfoldable pub sort_rows : List A → List A
  sort_rows [] = []
  sort_rows (x ∷ xs) = insert_sorted x (sort_rows xs)
