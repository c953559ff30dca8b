-- ===== src/LockFreeStack/Safety.antt =====
-- No deleted node is used, and the values come out in the order of a stack.
use concurrency_in_action.Common.{ℕ, ◌^◌, ◌<◌, ◌≡◌, refl, inl, Bool, Option, List, [], ◌∷◌}
use concurrency_in_action.StackModel.{empty_model, Model, Event, after}
use concurrency_in_action.LockFreeStack.{
  Place, returned, loading, inserting, entering, loading_head, looping, comparing, taking,
  reclaiming, claiming, counting, deleting_nodes, deleting, walking, linking, chaining, leaving,
  State, Outcome, went, null_fault, freed_fault, start, Op, pushes, pops, continues, continue, step,
  new_stack,
}
use concurrency_in_action.LockFreeStack.Count.{stays, thread_of}
use concurrency_in_action.LockFreeStack.Labels.{free}
use concurrency_in_action.LockFreeStack.Roles.{Has, Carries, Inv}
use concurrency_in_action.LockFreeStack.Rebuild.{quiet}
use concurrency_in_action.LockFreeStack.Events.{
  start_event, Keeps, GoesOn, Behaves, event, continue_event,
}
use concurrency_in_action.Common.{All}
use concurrency_in_action.LockFreeStack.Accounting.{new_stack-Counts}
use concurrency_in_action.LockFreeStack.PushSteps.{start_push-Keeps, loading-Keeps, inserting-Keeps}
use concurrency_in_action.LockFreeStack.PopSteps.{
  enters-Keeps, loading_head-Keeps, looping-Keeps, comparing-Keeps, taking-Keeps,
}
use concurrency_in_action.LockFreeStack.ReclaimSteps.{
  reclaiming-Keeps, claiming-Keeps, counting-Keeps,
}
use concurrency_in_action.LockFreeStack.DeleteSteps.{
  deleting_nodes-Keeps, deleting-Keeps, leaving-Keeps,
}
use concurrency_in_action.LockFreeStack.ChainSteps.{walking-Keeps, linking-Keeps, chaining-Keeps}

module _ {ℓ} {T : Type ℓ} where
  module _ (n t : ℕ) (few : n < 2 ^ 32) (mine : t < n) (m : Model T) (s : State T)
      (v : Inv n m s) where
    continue-Keeps :
        (w : Bool) (p : Place T)
        → s.places t ≡ p
        → Has s.heap v.labels m.in_hand t p
        → Carries (m.in_hand t) p
        → Keeps n (continue_event w p t s) m (continue w p t s)
    unfolding continue
    continue-Keeps w (returned res) e h r = (tt, v)
    continue-Keeps w (loading p) e h r = loading-Keeps n t mine m s v p e h r
    continue-Keeps w (inserting p) e h r = inserting-Keeps n t mine m s v w p e h r
    continue-Keeps w entering e h r = enters-Keeps n t mine m s v e
    continue-Keeps w loading_head e h r = loading_head-Keeps n t mine m s v e
    continue-Keeps w (looping p) e h r = looping-Keeps n t mine m s v p e h r
    continue-Keeps w (comparing a next) e h r = comparing-Keeps n t mine m s v w a next e h
    continue-Keeps w (taking p) e h r = taking-Keeps n t mine m s v p e h
    continue-Keeps w (reclaiming p res) e h r = reclaiming-Keeps n t few mine m s v p res e h r
    continue-Keeps w (claiming p res) e h r = claiming-Keeps n t few mine m s v p res e h.0 r
    continue-Keeps w (counting nodes p res) e h r =
        counting-Keeps n t few mine m s v nodes p res e h r
    continue-Keeps w (deleting_nodes nodes p res) e h r =
        deleting_nodes-Keeps n t mine m s v nodes p res e h r
    continue-Keeps w (deleting p res) e h r = deleting-Keeps n t mine m s v p res e h.0 r
    continue-Keeps w (walking first last a res) e h r =
        walking-Keeps n t mine m s v first last a res e h r
    continue-Keeps w (linking first last a res) e h r =
        linking-Keeps n t mine m s v first last a res e h r
    continue-Keeps w (chaining first last a res) e h r =
        chaining-Keeps n t mine m s v w first last a res e h r
    continue-Keeps w (leaving res) e h r = leaving-Keeps n t mine m s v res e r

    start-Keeps :
        (p : Place T) (b : Event T) (o : Outcome T)
        → s.places t ≡ p
        → ((res : Option T) → s.places t ≡ returned res → Keeps n b m o)
        → Keeps n (start_event p b) m (start p t o s)
    start-Keeps (returned res) b o e h = h res e
    start-Keeps (loading p) b o e h = (tt, v)
    start-Keeps (inserting p) b o e h = (tt, v)
    start-Keeps entering b o e h = (tt, v)
    start-Keeps loading_head b o e h = (tt, v)
    start-Keeps (looping p) b o e h = (tt, v)
    start-Keeps (comparing p q) b o e h = (tt, v)
    start-Keeps (taking p) b o e h = (tt, v)
    start-Keeps (reclaiming p res) b o e h = (tt, v)
    start-Keeps (claiming p res) b o e h = (tt, v)
    start-Keeps (counting q p res) b o e h = (tt, v)
    start-Keeps (deleting_nodes q p res) b o e h = (tt, v)
    start-Keeps (deleting p res) b o e h = (tt, v)
    start-Keeps (walking f l a res) b o e h = (tt, v)
    start-Keeps (linking f l a res) b o e h = (tt, v)
    start-Keeps (chaining f l a res) b o e h = (tt, v)
    start-Keeps (leaving res) b o e h = (tt, v)

  step-Keeps :
      (n : ℕ) (o : Op T) (m : Model T) (s : State T)
      → n < 2 ^ 32
      → thread_of o < n
      → Inv n m s
      → Keeps n (event o s) m (step o s)
  unfolding step
  step-Keeps n (pushes t d p) m s few mine v =
      start-Keeps n t few mine m s v (s.places t) _ _ refl
        (λ res e. start_push-Keeps n t mine m s v (s.heap p) res d p refl e)
  step-Keeps n (pops t) m s few mine v =
      start-Keeps n t few mine m s v (s.places t) _ _ refl (λ res e. (
        tt,
        quiet n t mine m s v s.threads_in_pop entering tt tt
            (stays n t mine s (returned res) entering e v.counts refl),
      ))
  step-Keeps n (continues w t) m s few mine v =
      continue-Keeps n t few mine m s v w (s.places t) refl (v.threads t) (v.results t)

  GoesOn-map :
      (P Q : State T → Type ℓ) (e : Event T) (m : Model T) (o : Outcome T)
      → ((s : State T) → P s → Q s)
      → GoesOn P e m o
      → GoesOn Q e m o
  GoesOn-map P Q e m (went s) f (a, h) = (a, f s h)
  GoesOn-map P Q e m null_fault f h = h
  GoesOn-map P Q e m freed_fault f h = h

  run-Behaves :
      (n : ℕ) (os : List (Op T)) (m : Model T) (s : State T)
      → n < 2 ^ 32
      → All (λ o. thread_of o < n) os
      → Inv n m s
      → Behaves os s m
  unfolding Behaves
  run-Behaves n [] m s few mine v = tt
  run-Behaves n (o ∷ os) m s few (here, there) v =
      GoesOn-map (λ s'. Inv n (after (event o s) m) s') _ (event o s) m (step o s)
        (λ s' v'. run-Behaves n os (after (event o s) m) s' few there v')
        (step-Keeps n o m s few here v)

  new_stack-Inv : (n : ℕ) → Inv {T = T} n empty_model new_stack
  new_stack-Inv n = record {
    labels = λ a. free;
    cells = [];
    pending_cells = [];
    allocated = λ a. inl refl;
    stack_chain = (refl, tt);
    contents_eq = refl;
    pending_chain = (refl, tt);
    threads = λ t. tt;
    results = λ t. tt;
    counts = rw (new_stack-Counts T n) refl;
    above = λ t le. refl;
  }

  -- For fewer than 2 ^ 32 threads on a new stack, any order of their steps, any addresses that `new` gives
  -- and any spurious failures, up to the first use of a null pointer: no deleted node is used; a node
  -- comes on the stack with the value given to its `push`; nodes leave it in the reverse of the order in
  -- which they came; a `pop` returns the data of the node that it took, or null if it found the stack
  -- empty, and it does so only when the stack is.
  pub new_stack-Behaves :
      (n : ℕ) (os : List (Op T))
      → n < 2 ^ 32
      → All (λ o. thread_of o < n) os
      → Behaves os new_stack empty_model
  new_stack-Behaves n os few mine =
      run-Behaves n os empty_model new_stack few mine (new_stack-Inv n)
