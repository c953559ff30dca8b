-- ===== src/QuickSort.antt =====
-- chapter04/quick_sort_examples.cpp: `sequentialQuickSort` and `parallelQuickSort`, over the
-- element type's `<` and the library's `std::partition`.
pub mod Laws
pub mod Stable
mod Examples
use mathlib.Core.List.{Mem, Perm}
use concurrency_in_action.Common.{
  ℕ, zero, suc, ◌≡◌, Bool, true, false, Option, none, some, List, [], ◌∷◌, ◌++◌, ◌>>=◌,
}

-- `std::partition`: it reorders the list, and returns where it is divided. What it promises is that
-- the elements before the point satisfy the predicate and the others do not; it keeps no order.
pub record Partition {ℓ} (A : Type ℓ) : Type ℓ where
  pub divide : (A → Bool) → List A → List A × List A
  pub lower : (p : A → Bool) (xs : List A) (x : A) → Mem x (divide p xs).0 → p x ≡ true
  pub higher : (p : A → Bool) (xs : List A) (x : A) → Mem x (divide p xs).1 → p x ≡ false
  pub reorders : (p : A → Bool) (xs : List A) → Perm ((divide p xs).0 ++ (divide p xs).1) xs

module _ {ℓ} {A : Type ℓ} (less : A → A → Bool) (partition : Partition A) where
  open partition use {divide}

  -- `result.splice(end, newHigher)` and `result.splice(begin, newLower)` with the pivot in `result`.
  abbrev pub join : A → List A → List A → List A
  join pivot new_lower new_higher = new_lower ++ (pivot ∷ new_higher)

  -- The depth of the recursion is the fuel; `none` means that it ran out.
  unfoldable pub sequential_quick_sort : ℕ → List A → Option (List A)
  sequential_quick_sort zero input = none
  sequential_quick_sort (suc k) [] = some []
  sequential_quick_sort (suc k) (pivot ∷ input) =
      let (lower_part, rest) = divide (λ t. less t pivot) input in
      do
        new_lower ← sequential_quick_sort k lower_part
        new_higher ← sequential_quick_sort k rest
        some (join pivot new_lower new_higher)

  -- The future's value is that of the call, whichever thread makes it.
  unfoldable pub parallel_quick_sort : ℕ → List A → Option (List A)
  unfolding sequential_quick_sort
  parallel_quick_sort zero input = none
  parallel_quick_sort (suc k) [] = some []
  parallel_quick_sort (suc k) (pivot ∷ input) =
      let (lower_part, rest) = divide (λ t. less t pivot) input in
      do
        new_lower ← parallel_quick_sort k lower_part
        new_higher ← sequential_quick_sort k rest
        some (join pivot new_lower new_higher)
