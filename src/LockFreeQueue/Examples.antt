-- ===== src/LockFreeQueue/Examples.antt =====
-- A run of the two threads on numbers.
use concurrency_in_action.Common.{ℕ, ◌≡◌, refl, Option, none, some, List, [], ◌∷◌, ◌++◌}
use concurrency_in_action.LockFreeQueue.{
  Queue, Event, Op, starts_push, pushes_on, pops_on, new_queue, run, destroy,
}
use concurrency_in_action.LockFreeQueue.Invariant.{Represents, new_queue-Represents}
use concurrency_in_action.LockFreeQueue.Fifo.{
  AllFreed, all_put_in, all_taken_out, run-Fifo_lock_free, destroy-ends,
}

-- The second pop reads the head while the push has filled the last node and not yet published it.
abbrev overlapping : List (Op ℕ)
overlapping =
    starts_push 4
    ∷ pushes_on
    ∷ pops_on
    ∷ pops_on
    ∷ pushes_on
    ∷ pops_on
    ∷ pushes_on
    ∷ pops_on
    ∷ pops_on
    ∷ pops_on
    ∷ pops_on
    ∷ []

abbrev events_of : Option (List (Event ℕ) × Queue ℕ) → List ℕ
events_of none = []
events_of (some (es, q)) = all_taken_out es

overlapping_test : events_of (run overlapping new_queue) ≡ 4 ∷ []
unfolding run
overlapping_test = refl

run-Fifo_lock_free_example :
    (events : List (Event ℕ)) × (q : Queue ℕ) × (hand : List ℕ) × (xs : List ℕ) × (run overlapping
        new_queue
      ≡ some (events, q))
    × Represents q hand xs
    × (all_put_in events ≡ all_taken_out events ++ (hand ++ xs))
run-Fifo_lock_free_example = run-Fifo_lock_free overlapping new_queue [] [] new_queue-Represents

destroy-ends_example :
    AllFreed (new_queue {T = ℕ}) (destroy 2 (new_queue {T = ℕ}).head (new_queue {T = ℕ}))
destroy-ends_example = destroy-ends new_queue [] new_queue-Represents refl
