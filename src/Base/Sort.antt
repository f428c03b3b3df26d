-- ===== src/Base/Sort.antt =====
-- `Array.prototype.sort`, which is stable: an insertion sort by a test `after x y`, "x is to stand
-- behind y", the sign of the comparator being positive.
use mathlib.Core.Bool.{Bool}
use mathlib.Core.List.{List, [], ◌∷◌}
use agent_working_memory.Base.Tests.{if◌then◌else◌}

module _ {ℓ} {A : Type ℓ} (after : A → A → Bool) where
  abbrev pub insert_sorted : A → List A → List A
  insert_sorted x [] = x ∷ []
  insert_sorted x (y ∷ ys) = if after x y then y ∷ insert_sorted x ys else x ∷ y ∷ ys

  abbrev pub sort : List A → List A
  sort [] = []
  sort (x ∷ xs) = insert_sorted x (sort xs)
