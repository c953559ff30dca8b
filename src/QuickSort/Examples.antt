-- ===== src/QuickSort/Examples.antt =====
-- The sorts on numbers, with the stable partition, and the theorems there.
use concurrency_in_action.Common.{ℕ, ◌≡◌, refl, true, false, some, List, [], ◌∷◌, arith, ltb}
use concurrency_in_action.QuickSort.Stable.{stable}
use concurrency_in_action.QuickSort.{sequential_quick_sort, parallel_quick_sort}
use concurrency_in_action.QuickSort.Laws.{
  Sorts, sequential_quick_sort-Sorts, parallel_quick_sort-sequential_quick_sort,
}

abbrev sample : List ℕ
sample = 5 ∷ 2 ∷ 9 ∷ 2 ∷ 0 ∷ 7 ∷ []

sequential_quick_sort-sample :
    sequential_quick_sort ltb stable 7 sample ≡ some (0 ∷ 2 ∷ 2 ∷ 5 ∷ 7 ∷ 9 ∷ [])
unfolding sequential_quick_sort
sequential_quick_sort-sample = refl

ltb_irrefl : (a : ℕ) → ltb a a ≡ false
ltb_irrefl a = ground arith

ltb_trans : (a b c : ℕ) → ltb a b ≡ true → ltb b c ≡ true → ltb a c ≡ true
ltb_trans a b c h k = ground arith

sequential_quick_sort-Sorts_example :
    Sorts ltb stable (sequential_quick_sort ltb stable 7 sample) sample
sequential_quick_sort-Sorts_example =
    sequential_quick_sort-Sorts ltb stable ltb_irrefl ltb_trans 7 sample (omega arith)

same_sorts_test :
    parallel_quick_sort ltb stable 7 sample ≡ sequential_quick_sort ltb stable 7 sample
same_sorts_test = parallel_quick_sort-sequential_quick_sort ltb stable 7 sample
