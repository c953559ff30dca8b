-- ===== src/Sorter/Examples.antt =====
-- A run of the sorter alone, and a helper thread that finds no chunk.
use concurrency_in_action.Common.{ℕ, ◌≡◌, refl, some, List, [], ◌∷◌, arith, ltb, true, false}
use concurrency_in_action.QuickSort.{sequential_quick_sort}
use concurrency_in_action.QuickSort.Stable.{stable}
use concurrency_in_action.Sorter.{
  State, returned, threw, new_sorter, parallel_quick_sort, sort_thread_turn, max_thread_count,
  starts_helper,
}
use concurrency_in_action.Sorter.Alone.{parallel_quick_sort-alone}

abbrev sample : List ℕ
sample = 5 ∷ 2 ∷ 9 ∷ 2 ∷ []

-- On one hardware thread no helper is started, and on two one is.
one_thread_test : starts_helper 1 0 ≡ false
one_thread_test = refl

two_threads_test : starts_helper 2 0 ≡ true
two_threads_test = refl

-- Where the number of hardware threads is not known, it is 0.
unknown_threads_test : max_thread_count 0 ≡ 4294967295
unknown_threads_test = refl

-- A helper whose turn comes while there is no chunk: `Pop` throws out of its thread.
helper_test : sort_thread_turn ltb stable 5 false new_sorter ≡ threw
unfolding sort_thread_turn
helper_test = refl

parallel_quick_sort-alone_example :
    (r : List ℕ) × (s : State ℕ) × (parallel_quick_sort ltb stable 5 sample ≡ returned r s)
    × (sequential_quick_sort ltb stable 5 sample ≡ some r)
    × (s.chunks ≡ [])
parallel_quick_sort-alone_example = parallel_quick_sort-alone ltb stable 5 sample (omega arith)
