-- ===== src/LockFreeStack/Events.antt =====
-- What a run shows, and what an abstract stack allows.
use concurrency_in_action.Common.{
  ℕ, ◌≡◌, refl, ap, sym, ==_iff, Bool, true, false, if◌then◌else◌, Option, none, some, List, [],
  ◌∷◌,
}
use concurrency_in_action.Nodes.{Node, Pointer}
use concurrency_in_action.LockFreeStack.{
  Place, returned, loading, inserting, entering, loading_head, looping, comparing, taking,
  reclaiming, claiming, counting, deleting_nodes, deleting, walking, linking, chaining, leaving,
  State, Outcome, went, null_fault, freed_fault, Op, pushes, pops, continues, same, step,
}
use concurrency_in_action.StackModel.{
  Model, Event, silent, offers, pushed, popped, was_empty, gave, Allowed, after,
}
use concurrency_in_action.LockFreeStack.Roles.{Inv}

module _ {ℓ} {T : Type ℓ} where
  -- `new node(data)`, if the address is free.
  abbrev pub new_event : ℕ → T → Option (Node T) → Event T
  new_event t d none = offers t (some d)
  new_event t d (some k) = silent

  abbrev pub start_event : Place T → Event T → Event T
  start_event (returned res) e = e
  start_event (loading p) e = silent
  start_event (inserting p) e = silent
  start_event entering e = silent
  start_event loading_head e = silent
  start_event (looping p) e = silent
  start_event (comparing p q) e = silent
  start_event (taking p) e = silent
  start_event (reclaiming p res) e = silent
  start_event (claiming p res) e = silent
  start_event (counting q p res) e = silent
  start_event (deleting_nodes q p res) e = silent
  start_event (deleting p res) e = silent
  start_event (walking f l a res) e = silent
  start_event (linking f l a res) e = silent
  start_event (chaining f l a res) e = silent
  start_event (leaving res) e = silent

  abbrev pub pushed_if : Bool → ℕ → Option T → Event T
  pushed_if true t d = pushed t d
  pushed_if false t d = silent

  abbrev pub insert_event : (spurious : Bool) → ℕ → (head : Pointer) → Option (Node T) → Event T
  insert_event w t head none = silent
  insert_event w t head (some k) = pushed_if (if w then false else same head k.next) t k.data_

  abbrev pub head_event : ℕ → Pointer → Event T
  head_event t none = was_empty t
  head_event t (some a) = silent

  abbrev pub take_event : Bool → ℕ → Pointer → Event T
  take_event true t head = popped t
  take_event false t head = head_event t head

  abbrev pub continue_event : (spurious : Bool) → Place T → ℕ → State T → Event T
  continue_event w (returned res) t s = silent
  continue_event w (loading p) t s = silent
  continue_event w (inserting p) t s = insert_event w t s.head (s.heap p)
  continue_event w entering t s = silent
  continue_event w loading_head t s = head_event t s.head
  continue_event w (looping p) t s = silent
  continue_event w (comparing p next) t s =
      take_event (if w then false else same s.head (some p)) t s.head
  continue_event w (taking p) t s = silent
  continue_event w (reclaiming p res) t s = silent
  continue_event w (claiming p res) t s = silent
  continue_event w (counting nodes p res) t s = silent
  continue_event w (deleting_nodes nodes p res) t s = silent
  continue_event w (deleting p res) t s = gave t res
  continue_event w (walking first last a res) t s = silent
  continue_event w (linking first last a res) t s = silent
  continue_event w (chaining first last a res) t s = silent
  continue_event w (leaving res) t s = gave t res

  abbrev pub event : Op T → State T → Event T
  event (pushes t v p) s = start_event (s.places t) (new_event t v (s.heap p))
  event (pops t) s = start_event (s.places t) silent
  event (continues w t) s = continue_event w (s.places t) t s

  -- A step uses no deleted node; an abstract stack allows what it shows; and `P` holds of the state then.
  abbrev pub GoesOn : (State T → Type ℓ) → Event T → Model T → Outcome T → Type ℓ
  GoesOn P e m (went s) = Allowed e m × P s
  GoesOn P e m null_fault = Unit
  GoesOn P e m freed_fault = ⊥ × Unit {ℓ}

  abbrev pub Keeps : ℕ → Event T → Model T → Outcome T → Type ℓ
  Keeps n e m o = GoesOn (λ s. Inv n (after e m) s) e m o

  -- So does every step of a run, up to one that uses a null pointer, if there is one.
  unfoldable pub Behaves : List (Op T) → State T → Model T → Type ℓ
  unfolding step
  Behaves [] s m = Unit
  Behaves (o ∷ os) s m = GoesOn (λ s'. Behaves os s' (after (event o s) m)) (event o s) m (step o s)

same-eq : (p q : Pointer) → same p q ≡ true → p ≡ q
same-eq none none e = refl
same-eq none (some b) e = cc
same-eq (some a) none e = cc
same-eq (some a) (some b) e = ap some (sym ((==_iff b a).0 e))

-- A compare_exchange_weak that exchanges has found the value that it expects.
pub exchanged-eq : (w : Bool) (p q : Pointer) → (if w then false else same p q) ≡ true → p ≡ q
exchanged-eq true p q e = cc
exchanged-eq false p q e = same-eq p q e
