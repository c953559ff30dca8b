-- ===== src/ThreadSafeQueue/Examples.antt =====
-- Runs of the queue, and the theorems there.
use concurrency_in_action.Common.{ℕ, ◌≤◌, ◌≡◌, refl, List, [], ◌∷◌, ◌++◌, arith, length}
use concurrency_in_action.ThreadSafeQueue.{new_queue, Op, pushes, waits, tries, step, run}
use concurrency_in_action.ThreadSafeQueue.Fifo.{run-fifo}
use concurrency_in_action.ThreadSafeQueue.Wakeups.{no_lost_wakeup}

-- Two threads wait, two values come, one thread is on its way and a third takes a value.
abbrev ops : List (Op ℕ)
ops = waits ∷ waits ∷ waits ∷ pushes 7 ∷ pushes 8 ∷ tries ∷ []

run-ops : (run ops new_queue).1 ≡ 7 ∷ []
unfolding run step
run-ops = refl

run-fifo_example : [] ++ (7 ∷ 8 ∷ []) ≡ (run ops new_queue).1 ++ (run ops new_queue).0.data_queue
run-fifo_example = run-fifo ops new_queue

no_lost_wakeup_example :
    length (run ops new_queue).0.data_queue ≤ (run ops new_queue).0.data_cond.woken
unfolding run step
no_lost_wakeup_example = no_lost_wakeup ops (omega arith)
