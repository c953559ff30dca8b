-- ===== src/RefCountStack/Safety.antt =====
-- No deleted node is used, and the values come out in the order of a stack.
use concurrency_in_action.Common.{
  All, ℕ, zero, suc, ◌^◌, ◌<◌, ◌≡◌, refl, Bool, Option, none, List, [], ◌∷◌, arith, total_below,
}
use concurrency_in_action.StackModel.{Model, Event, after, empty_model}
use concurrency_in_action.RefCountStack.{
  Place, returned, loading, inserting, entering, increasing, holding, comparing, taking, adding,
  dropping, deleting, State, Outcome, went, overflowed, freed_fault, start, Op, pushes, pops,
  continues, continue, step, new_stack,
}
use concurrency_in_action.RefCountStack.Labels.{free, refers}
use concurrency_in_action.RefCountStack.Roles.{Has, Carries, Inv}
use concurrency_in_action.RefCountStack.Events.{
  start_event, Keeps, GoesOn, continue_event, event, Behaves,
}
use concurrency_in_action.RefCountStack.References.{quiet}
use concurrency_in_action.RefCountStack.PushSteps.{start_push-Keeps, loading-Keeps, inserting-Keeps}
use concurrency_in_action.RefCountStack.PopSteps.{
  entering-Keeps, increasing-Keeps, holding-Keeps, comparing-Keeps,
}
use concurrency_in_action.RefCountStack.CountSteps.{taking-Keeps, adding-Keeps}
use concurrency_in_action.RefCountStack.DropSteps.{dropping-Keeps, deleting-Keeps}

-- The thread that makes a step.
abbrev pub thread_of {ℓ} : {T : Type ℓ} → Op T → ℕ
thread_of (pushes t d p) = t
thread_of (pops t) = t
thread_of (continues w t) = t

no_references {ℓ} :
    (T : Type ℓ) (n a : ℕ) → total_below {A = Place T} (refers a) n (λ t. returned none) ≡ 0
no_references T zero a = refl
no_references T (suc n) a = let rest = no_references T n a in omega arith

module _ {ℓ} {T : Type ℓ} where
  module _ (n t : ℕ) (few : n < 2 ^ 32) (mine : t < n) (m : Model T) (s : State T)
      (v : Inv n m s) where
    continue-Keeps :
        (w : Bool) (p : Place T)
        → s.places t ≡ p
        → Has s.heap v.labels m.in_hand t p
        → Carries (m.in_hand t) p
        → Keeps n (continue_event w p t s) m (continue w p t s)
    unfolding continue
    continue-Keeps w (returned res) e h r = (tt, v)
    continue-Keeps w (loading p) e h r = loading-Keeps n t mine m s v p e h r
    continue-Keeps w (inserting p) e h r = inserting-Keeps n t mine m s v w p e h r
    continue-Keeps w entering e h r = entering-Keeps n t mine m s v e
    continue-Keeps w (increasing c) e h r = increasing-Keeps n t mine m s v c e
    continue-Keeps w (holding c) e h r = holding-Keeps n t mine m s v c e r
    continue-Keeps w (comparing x p next) e h r = comparing-Keeps n t mine m s v x p next e h
    continue-Keeps w (taking x p) e h r = taking-Keeps n t few mine m s v x p e h
    continue-Keeps w (adding x p res) e h r = adding-Keeps n t few mine m s v x p res e h.0 r
    continue-Keeps w (dropping p c) e h r = dropping-Keeps n t few mine m s v p c e
    continue-Keeps w (deleting p a) e h r = deleting-Keeps n t few mine m s v p a e h.0 r

    start-Keeps :
        (p : Place T) (b : Event T) (o : Outcome T)
        → s.places t ≡ p
        → ((res : Option T) → s.places t ≡ returned res → Keeps n b m o)
        → Keeps n (start_event p b) m (start p o s)
    start-Keeps (returned res) b o e h = h res e
    start-Keeps (loading p) b o e h = (tt, v)
    start-Keeps (inserting p) b o e h = (tt, v)
    start-Keeps entering b o e h = (tt, v)
    start-Keeps (increasing c) b o e h = (tt, v)
    start-Keeps (holding c) b o e h = (tt, v)
    start-Keeps (comparing x p next) b o e h = (tt, v)
    start-Keeps (taking x p) b o e h = (tt, v)
    start-Keeps (adding x p res) b o e h = (tt, v)
    start-Keeps (dropping p c) b o e h = (tt, v)
    start-Keeps (deleting p a) b o e h = (tt, v)

  pub step-Keeps :
      (n : ℕ) (o : Op T) (m : Model T) (s : State T)
      → n < 2 ^ 32
      → thread_of o < n
      → Inv n m s
      → Keeps n (event o s) m (step o s)
  unfolding step
  step-Keeps n (pushes t d p) m s few mine v =
      start-Keeps n t few mine m s v (s.places t) _ _ refl
        (λ res e. start_push-Keeps n t mine m s v (s.heap p) res d p refl e)
  step-Keeps n (pops t) m s few mine v =
      start-Keeps n t few mine m s v (s.places t) _ _ refl (λ res e. (
        tt,
        quiet n t mine m s v m s.head (returned res) entering e (λ a. refl) (λ u ne. refl) refl
            v.stack_chain tt tt,
      ))
  step-Keeps n (continues w t) m s few mine v =
      continue-Keeps n t few mine m s v w (s.places t) refl (v.threads t) (v.results t)

  GoesOn-map :
      (P Q : State T → Type ℓ) (e : Event T) (m : Model T) (o : Outcome T)
      → ((s : State T) → P s → Q s)
      → GoesOn P e m o
      → GoesOn Q e m o
  GoesOn-map P Q e m (went s) f (a, h) = (a, f s h)
  GoesOn-map P Q e m overflowed f h = h
  GoesOn-map P Q e m freed_fault f h = h

  run-Behaves :
      (n : ℕ) (os : List (Op T)) (m : Model T) (s : State T)
      → n < 2 ^ 32
      → All (λ o. thread_of o < n) os
      → Inv n m s
      → Behaves os s m
  unfolding Behaves
  run-Behaves n [] m s few mine v = tt
  run-Behaves n (o ∷ os) m s few (here, there) v =
      GoesOn-map (λ s'. Inv n (after (event o s) m) s') _ (event o s) m (step o s)
        (λ s' v'. run-Behaves n os (after (event o s) m) s' few there v')
        (step-Keeps n o m s few here v)

  pub new_stack-Inv : (n : ℕ) → Inv {T = T} n empty_model new_stack
  new_stack-Inv n = record {
    labels = λ a. free;
    cells = [];
    balanced = λ a. (no_references T n a, tt);
    stack_chain = (refl, tt);
    contents_eq = refl;
    threads = λ t. tt;
    results = λ t. tt;
    above = λ t le. refl;
  }

  -- For fewer than 2 ^ 32 threads on a new stack, any order of their steps, any addresses that `new` gives
  -- and any spurious failures, up to the first overflow of an external count: no deleted node is used; a node
  -- comes on the stack with the value given to its `push`; nodes leave it in the reverse of the order in
  -- which they came; a `pop` returns the data of the node that it took, or null if it found the stack
  -- empty, and it does so only when the stack is.
  pub new_stack-Behaves_counted :
      (n : ℕ) (os : List (Op T))
      → n < 2 ^ 32
      → All (λ o. thread_of o < n) os
      → Behaves os new_stack empty_model
  new_stack-Behaves_counted n os few mine =
      run-Behaves n os empty_model new_stack few mine (new_stack-Inv n)
