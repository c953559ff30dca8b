-- ===== src/ThreadSafeQueueRevised/Examples.antt =====
-- Runs on numbers, where a move leaves 0.
use concurrency_in_action.Common.{ℕ, true, ◌≡◌, refl, Option, some, List, [], ◌∷◌, ◌++◌, arith}
use concurrency_in_action.ThreadSafeQueueRevised.{
  Store, Queue, by_reference, by_pointer, Op, pushes, tries, waits, new_queue, copy, empty, try_pop,
  run,
}
use concurrency_in_action.ThreadSafeQueueRevised.Fifo.{Represents, pushed, run-Fifo_revised}

abbrev moved : ℕ → ℕ
moved n = 0

abbrev new_store : Store ℕ
new_store = record { object = λ a. 0; fresh = 0 }

new_queue-Represents : Represents (new_store, new_queue) []
new_queue-Represents = (0, (omega arith, tt))

abbrev program : List (Op ℕ)
program = pushes 5 ∷ pushes 6 ∷ tries by_reference ∷ waits by_pointer ∷ waits by_pointer ∷ []

program_test : (run moved program (new_store, new_queue)).0 ≡ 5 ∷ 6 ∷ []
unfolding run
program_test = refl

run-Fifo_revised_example :
    (xs : List ℕ) × Represents (run moved program (new_store, new_queue)).1 xs
    × (pushed moved program ≡ (run moved program (new_store, new_queue)).0 ++ xs)
run-Fifo_revised_example =
    run-Fifo_revised moved program new_store new_queue [] new_queue-Represents

-- A copy shares the objects: after a pop by reference from the first queue, a pop from the copy
-- gives what the move left.
abbrev after_copy : Store ℕ × Queue → Option ℕ
after_copy (s, q) = (try_pop moved by_pointer ((try_pop moved by_reference (s, q)).1.0, copy q)).0

copy_test : after_copy (run moved (pushes 5 ∷ []) (new_store, new_queue)).1 ≡ some 0
unfolding run
copy_test = refl

empty_test : empty (run moved (pushes 5 ∷ tries by_pointer ∷ []) (new_store, new_queue)).1.1 ≡ true
unfolding run empty
empty_test = refl
