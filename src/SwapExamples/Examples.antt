-- ===== src/SwapExamples/Examples.antt =====
-- Two threads that swap three objects.
use concurrency_in_action.Common.{ℕ, ◌+◌, ◌≡◌, refl, true, some, List, [], ◌∷◌}
use concurrency_in_action.SwapExamples.{
  swap_with_unique_lock, idle, waiting, swap, swap_scoped, Op, calls, continues, run,
}
use concurrency_in_action.SwapExamples.Order.{at_rest}

abbrev exchange : ℕ → ℕ → ℕ × ℕ
exchange a b = (b, a)

abbrev details : ℕ → ℕ
details o = o + 10

-- Thread 2 waits for the mutex of object 1 until thread 1 lets it go.
abbrev program : List Op
program =
    calls swap 1 0 1
    ∷ calls swap_scoped 2 1 2
    ∷ continues 1
    ∷ continues 2
    ∷ continues 1
    ∷ continues 1
    ∷ continues 2
    ∷ continues 1
    ∷ continues 1
    ∷ continues 2
    ∷ continues 1
    ∷ continues 2
    ∷ continues 2
    ∷ continues 2
    ∷ continues 2
    ∷ continues 2
    ∷ []

program_test : (run exchange program (at_rest details)).details 1 ≡ 12
unfolding run
program_test = refl

-- `SwapWithUniqueLock` ends with both mutexes locked, and the next call for one of the objects waits for ever.
abbrev leaking : List Op
leaking =
    calls swap_with_unique_lock 1 0 1
    ∷ continues 1
    ∷ continues 1
    ∷ continues 1
    ∷ continues 1
    ∷ calls swap 2 1 2
    ∷ continues 2
    ∷ []

leaked_test : (run exchange leaking (at_rest details)).mutexes 1 ≡ some 1
unfolding run
leaked_test = refl

ended_test : (run exchange leaking (at_rest details)).places 1 ≡ idle
unfolding run
ended_test = refl

stuck_test : (run exchange leaking (at_rest details)).places 2 ≡ waiting true 1 2
unfolding run
stuck_test = refl
