-- ===== src/ThreadSafeList/Examples.antt =====
-- Two threads on a list of numbers.
use concurrency_in_action.Common.{
  ℕ, zero, suc, ◌+◌, ◌≡◌, refl, ◌==◌, Option, none, some, List, [], ◌∷◌, ◌++◌, replicate,
}
use concurrency_in_action.Nodes.{Node, Pointer}
use concurrency_in_action.ThreadSafeList.{
  for_each, remove_if, State, Outcome, went, blocked, fault, new_list, Op, calls_push_front, calls,
  continues, step, call, resting, starting, run,
}
use concurrency_in_action.ThreadSafeList.Invariant.{Inv, new_list-Inv}
use concurrency_in_action.ThreadSafeList.Safety.{step-Keeps, run-Inv}
use concurrency_in_action.ThreadSafeList.Progress.{SomeMoves, no_deadlock_in_list}

abbrev turns : ℕ → ℕ → List (Op ℕ)
turns n t = replicate n (continues t)

-- Thread 1 adds 10 to each element, and thread 2 removes the elements 5, right behind it.
abbrev program : List (Op ℕ)
program =
    (calls_push_front 1 7 ∷ turns 2 1)
    ++ (calls_push_front 1 5 ∷ turns 2 1)
    ++ (calls 1 (for_each (λ n. n + 10)) ∷ turns 4 1)
    ++ (calls 2 (remove_if (λ n. n == 15)) ∷ turns 2 2)
    ++ turns 10 1
    ++ turns 12 2

abbrev some_value : Option ℕ → List ℕ
some_value none = []
some_value (some n) = n ∷ []

-- The values from a pointer on, of at most `n` nodes.
abbrev node_values : Option (Node ℕ) → (Pointer → List ℕ) → List ℕ
node_values none rest = []
node_values (some n) rest = some_value n.data_ ++ rest n.next

abbrev values : ℕ → (ℕ → Option (Node ℕ)) → Pointer → List ℕ
values zero heap p = []
values (suc n) heap none = []
values (suc n) heap (some a) = node_values (heap a) (values n heap)

abbrev values_of : Outcome ℕ → List ℕ
values_of (went s) = values 5 s.heap (some 0)
values_of blocked = []
values_of fault = []

program_test : values_of (run program new_list) ≡ 17 ∷ []
unfolding run
program_test = refl

run-Inv_example : (s : State ℕ) × (run program new_list ≡ went s) × Inv s
run-Inv_example = run-Inv program new_list new_list-Inv

abbrev walking : State ℕ
walking = call (resting none) (starting (for_each (λ n. n))) 3 new_list

walking-Inv : Inv walking
unfolding step
walking-Inv = step-Keeps (calls 3 (for_each (λ n. n))) new_list new_list-Inv

no_deadlock_in_list_example : SomeMoves walking
no_deadlock_in_list_example = no_deadlock_in_list walking 3 walking-Inv tt
