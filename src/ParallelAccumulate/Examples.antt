-- ===== src/ParallelAccumulate/Examples.antt =====
-- Sums of natural numbers.
use concurrency_in_action.Common.{ℕ, ◌+◌, ◌<◌, ◌≤◌, ◌≡◌, refl, some, arith, replicate}
use concurrency_in_action.ParallelAccumulate.{
  Addition, accumulate, num_threads, parallel_accumulate,
}
use concurrency_in_action.ParallelAccumulate.Laws.{
  num_threads_bounds, parallel_accumulate-accumulate,
}

abbrev naturals : Addition ℕ
naturals = record { value_initialized = 0; plus = ◌+◌ }

thirty_test : parallel_accumulate naturals 4 (replicate 30 2) 5 ≡ some 65
unfolding parallel_accumulate
thirty_test = refl

num_threads_bounds_example :
    (0 < num_threads 0 26) × (num_threads 0 26 ≤ 26) × (num_threads 0 26 ≤ 2)
num_threads_bounds_example = num_threads_bounds 0 26 (omega arith) (omega arith)

parallel_accumulate-accumulate_example :
    parallel_accumulate naturals 4 (replicate 30 2) 5
    ≡ some (accumulate naturals (replicate 30 2) 5)
parallel_accumulate-accumulate_example =
    parallel_accumulate-accumulate naturals (λ a b c. omega arith) (λ a. omega arith) 4
      (replicate 30 2) 5 (omega arith)
