-- ===== src/LockFreeStack/Examples.antt =====
-- Runs of the stack: a value that is pushed and popped, and a pop of the empty stack beside another.
use concurrency_in_action.Common.{ℕ, ◌≡◌, refl, true, false, none, some, List, [], ◌∷◌, ◌++◌, arith}
use concurrency_in_action.StackModel.{empty_model}
use concurrency_in_action.LockFreeStack.Count.{Counts, Survives}
use concurrency_in_action.LockFreeStack.Events.{Behaves}
use concurrency_in_action.LockFreeStack.Safety.{new_stack-Behaves}
use concurrency_in_action.LockFreeStack.Accounting.{threads_in_pop-Counts}
use concurrency_in_action.LockFreeStack.{
  Place, Outcome, went, null_fault, freed_fault, Op, pushes, pops, continues, new_stack, run,
  returned, entering,
}

abbrev place_of : Outcome ℕ → ℕ → Place ℕ
place_of (went s) t = s.places t
place_of null_fault t = entering
place_of freed_fault t = entering

abbrev again : ℕ → List (Op ℕ)
again t = continues false t ∷ continues false t ∷ continues false t ∷ []

-- Thread 1 pushes 8 at address 5; the first compare_exchange fails spuriously. Thread 2 pops it.
abbrev push_and_pop : List (Op ℕ)
push_and_pop =
    pushes 1 8 5 ∷ continues false 1 ∷ continues true 1 ∷ continues false 1 ∷ pops 2 ∷ again 2
    ++ again 2
    ++ again 2
    ++ again 2

push_and_pop_test : place_of (run push_and_pop new_stack) 2 ≡ returned (some 8)
unfolding run
push_and_pop_test = refl

-- Two threads pop the empty stack: the second finds that it is not alone, and chains a null node.
abbrev two_pops : List (Op ℕ)
two_pops = pops 1 ∷ continues false 1 ∷ pops 2 ∷ again 2 ++ again 2

two_pops_test : run two_pops new_stack ≡ null_fault
unfolding run
two_pops_test = refl

-- One thread alone pops the empty stack.
one_pop_test : place_of (run (pops 1 ∷ again 1 ++ again 1 ++ again 1) new_stack) 1 ≡ returned none
unfolding run
one_pop_test = refl

-- Thread 2 is between its increment and its decrement, and thread 1 has not begun.
abbrev half_way : List (Op ℕ)
half_way = pushes 1 8 5 ∷ again 1 ++ (pops 2 ∷ again 2)

half_way_test : Survives (Counts 3) (run half_way new_stack)
half_way_test = threads_in_pop-Counts 3 half_way (omega arith)

-- Thread 2 has loaded the head when thread 3 pops that node, which goes to the pending nodes.
abbrev crossing : List (Op ℕ)
crossing =
    pushes 1 8 5 ∷ again 1
    ++ (pops 2 ∷ again 2
        ++ (pops 3 ∷ again 3 ++ again 3 ++ again 3 ++ again 3 ++ again 2 ++ again 2 ++ again 2))

crossing_test : place_of (run crossing new_stack) 3 ≡ returned (some 8)
unfolding run
crossing_test = refl

new_stack-Behaves_example : Behaves crossing new_stack empty_model
new_stack-Behaves_example = new_stack-Behaves 4 crossing (omega arith) (omega arith)
