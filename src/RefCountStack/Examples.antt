-- ===== src/RefCountStack/Examples.antt =====
-- Runs of the stack.
use mathlib.Core.Path.{subst}
use mathlib.Core.Option.{some-injective}
use concurrency_in_action.Common.{
  Option, Bool-cases, inl, inr, ◌==◌, ◌≢◌, ℕ, ◌≡◌, refl, false, none, some, List, [], ◌∷◌, ◌++◌,
  arith,
}
use concurrency_in_action.StackModel.{empty_model}
use concurrency_in_action.RefCountStack.Events.{Behaves}
use concurrency_in_action.RefCountStack.Safety.{new_stack-Behaves_counted}
use concurrency_in_action.RefCountStack.Destructor.{destroy_stack}
use concurrency_in_action.RefCountStack.Freed.{AtRest, Freed, turns_for}
use concurrency_in_action.RefCountStack.Rest.{Quiet, IsShort, new_stack-run-Frees}
use concurrency_in_action.RefCountStack.{
  State, Node, Place, Outcome, went, overflowed, freed_fault, Op, pushes, pops, continues,
  new_stack, run, returned, entering, int_max, CountedPtr,
}

abbrev place_of : Outcome ℕ → ℕ → Place ℕ
place_of (went s) t = s.places t
place_of overflowed t = entering
place_of freed_fault t = entering

abbrev again : ℕ → List (Op ℕ)
again t = continues false t ∷ continues false t ∷ continues false t ∷ []

-- Thread 2 holds the node when thread 3 pops it; thread 2 has the last reference, and deletes it.
abbrev crossing : List (Op ℕ)
crossing =
    pushes 1 8 5 ∷ again 1
    ++ (pops 2 ∷ again 2 ++ (pops 3 ∷ again 3 ++ again 3 ++ again 3 ++ again 2 ++ again 2))

crossing_pops : place_of (run crossing new_stack) 3 ≡ returned (some 8)
unfolding run
crossing_pops = refl

crossing_finds_none : place_of (run crossing new_stack) 2 ≡ returned none
unfolding run
crossing_finds_none = refl

new_stack-Behaves_counted_example : Behaves crossing new_stack empty_model
new_stack-Behaves_counted_example = new_stack-Behaves_counted 4 crossing (omega arith) (omega arith)

-- Each `pop` of the empty stack increases the count beside the null pointer, and none decreases it.
abbrev worn : CountedPtr
worn = record { external_count = int_max; ptr = none }

overflow_test :
    run (pops 1 ∷ again 1) (record { heap = λ p. none; head = worn; places = λ t. returned none })
    ≡ overflowed
unfolding run
overflow_test = refl

two_pops_count : Outcome ℕ → ℕ
two_pops_count (went s) = s.head.external_count
two_pops_count overflowed = 0
two_pops_count freed_fault = 0

two_pops_test : two_pops_count (run (pops 1 ∷ again 1 ++ (pops 1 ∷ again 1)) new_stack) ≡ 2
unfolding run two_pops_count
two_pops_test = refl

abbrev state_of : Outcome ℕ → State ℕ
state_of (went s) = s
state_of overflowed = new_stack
state_of freed_fault = new_stack

-- Two nodes are on the stack when the destructor runs.
abbrev two_pushes : List (Op ℕ)
two_pushes = pushes 1 8 5 ∷ again 1 ++ (pushes 1 9 6 ∷ again 1)

abbrev two_nodes : State ℕ
two_nodes = state_of (run two_pushes new_stack)

two_nodes-Quiet : Quiet two_nodes
unfolding run
two_nodes-Quiet u = elim (Bool-cases (1 == u)) [
  | inl mine ↦ (none, rw mine refl)
  | inr other ↦ (none, rw other refl)
]

two_nodes-IsShort : (a : ℕ) (k : Node ℕ) → two_nodes.heap a ≡ some k → IsShort k
unfolding run
two_nodes-IsShort a k e = elim (Bool-cases (6 == a)) [
  | inl upper ↦ subst (λ k. IsShort k) (some-injective _ k (rw upper at e)) (omega arith)
  | inr above ↦ elim (Bool-cases (5 == a)) [
    | inl lower ↦ subst (λ k. IsShort k) (some-injective _ k (rw (above, lower) at e)) (omega arith)
    | inr below ↦ absurd (none_ne_some k (rw (above, below) at e))
  ]
]
  where
    none_ne_some : (k : Node ℕ) → none ≢ some k
    none_ne_some k h = cc

new_stack-run-Frees_example :
    (xs : List ℕ) × AtRest two_nodes.heap two_nodes.head xs
    × Freed (destroy_stack (turns_for xs) 1 two_nodes) xs two_nodes
unfolding run
new_stack-run-Frees_example =
    new_stack-run-Frees 2 1 two_pushes two_nodes (omega arith) (omega arith) refl two_nodes-Quiet
      two_nodes-IsShort (omega arith)

heap_at : Option (Outcome ℕ) → ℕ → Option (Node ℕ)
heap_at none a = none
heap_at (some o) a = (state_of o).heap a

upper_deleted : heap_at (destroy_stack 20 1 two_nodes) 6 ≡ none
unfolding run heap_at destroy_stack
upper_deleted = refl
