-- ===== src/ThreadSafeStack/Examples.antt =====
-- Calls on a small stack of numbers.
use concurrency_in_action.Common.{ℕ, ◌+◌, ◌≡◌, refl, List, [], ◌∷◌, ◌++◌, weight}
use concurrency_in_action.ThreadSafeStack.{Call, pushes, pops, asks_empty, returned, popped, run}
use concurrency_in_action.ThreadSafeStack.Lifo.{push-run-pop, run-conserves, handed_out}

abbrev calls : List (Call ℕ)
calls = pushes 2 ∷ asks_empty ∷ pops ∷ []

push-run-pop_example :
    run (pushes 1 ∷ calls ++ (pops ∷ [])) (9 ∷ [])
    ≡ (returned ∷ (run calls []).0 ++ (popped 1 ∷ []), 9 ∷ [])
unfolding run
push-run-pop_example = push-run-pop 1 calls (9 ∷ []) (tt, (tt, (tt, tt))) refl

conserves_test :
    handed_out (λ x. x) (run (pops ∷ pops ∷ calls) (9 ∷ [])).0
      + weight (λ x. x) (run (pops ∷ pops ∷ calls) (9 ∷ [])).1
    ≡ 11
conserves_test = run-conserves (λ x. x) (pops ∷ pops ∷ calls) (9 ∷ [])
