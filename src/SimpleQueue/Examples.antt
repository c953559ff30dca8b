-- ===== src/SimpleQueue/Examples.antt =====
-- Runs on a new queue of numbers.
use concurrency_in_action.Common.{ℕ, ◌≡◌, refl, Option, none, some, List, [], ◌∷◌, ◌++◌}
use concurrency_in_action.Condition.{Condition, notify_one}
use concurrency_in_action.SimpleQueue.{
  Holder, nobody, Queue, Op, pushes, starts_pop, finishes_pop, sleeps, new_queue, run,
}
use concurrency_in_action.SimpleQueue.Fifo.{Represents, new_queue-Represents, pushed, run-Fifo}

-- A push between the test of a pop and its end.
abbrev overlapping : List (Op ℕ)
overlapping = pushes 1 ∷ starts_pop ∷ pushes 2 ∷ finishes_pop ∷ starts_pop ∷ finishes_pop ∷ []

run-Fifo_example :
    (out : List ℕ) × (q : Queue ℕ) × (xs : List ℕ) × (run overlapping new_queue ≡ some (out, q))
    × Represents q xs
    × (pushed overlapping ≡ out ++ xs)
run-Fifo_example = run-Fifo overlapping new_queue [] new_queue-Represents

-- A push between the test of a wait and its sleep: its notification finds no thread asleep, so the
-- thread then sleeps beside a value.
abbrev conditions : Option (List ℕ × Queue ℕ) → List (Condition × Holder)
conditions none = []
conditions (some (out, q)) = (q.data_cond, q.holder) ∷ []

lost_wakeup_test :
    conditions (run (starts_pop ∷ pushes 7 ∷ sleeps ∷ []) new_queue)
    ≡ (record { asleep = 1; woken = 0 }, nobody) ∷ []
unfolding run notify_one
lost_wakeup_test = refl
