-- ===== src/RefCountStack/Events.antt =====
-- What the steps show, and what the runs promise.
use concurrency_in_action.Common.{
  ℕ, ◌≡◌, refl, sym, ap, Bool, true, false, if◌then◌else◌, ◌==◌, ==_iff, Bool-cases, inl, inr,
  Option, none, some, List, [], ◌∷◌, ◌-◌, ◌%◌, ◌^◌,
}
use concurrency_in_action.Nodes.{Pointer}
use concurrency_in_action.StackModel.{
  Model, Event, silent, offers, pushed, popped, was_empty, gave, Allowed, after,
}
use concurrency_in_action.RefCountStack.{
  CountedPtr, Node, After, returns, repeats, Place, returned, loading, inserting, entering,
  increasing, holding, comparing, taking, adding, dropping, deleting, State, Outcome, went,
  overflowed, freed_fault, Op, pushes, pops, continues, same, same_ptr, step, int_max,
}
use concurrency_in_action.RefCountStack.Roles.{Inv}

module _ {ℓ} {T : Type ℓ} where
  -- `new node(data)`, if the address is free.
  abbrev pub new_event : ℕ → T → Option (Node T) → Event T
  new_event t d none = offers t (some d)
  new_event t d (some k) = silent

  abbrev pub start_event : Place T → Event T → Event T
  start_event (returned res) e = e
  start_event (loading p) e = silent
  start_event (inserting p) e = silent
  start_event entering e = silent
  start_event (increasing c) e = silent
  start_event (holding c) e = silent
  start_event (comparing x p next) e = silent
  start_event (taking x p) e = silent
  start_event (adding x p res) e = silent
  start_event (dropping p c) e = silent
  start_event (deleting p a) e = silent

  abbrev pub pushed_if : Bool → ℕ → Option T → Event T
  pushed_if true t d = pushed t d
  pushed_if false t d = silent

  abbrev pub insert_event : (spurious : Bool) → ℕ → (head : CountedPtr) → Option (Node T) → Event T
  insert_event w t head none = silent
  insert_event w t head (some k) = pushed_if (if w then false else same head k.next) t k.data_

  -- The count of a null head is increased.
  abbrev pub null_event : ℕ → Pointer → Event T
  null_event t none = was_empty t
  null_event t (some p) = silent

  abbrev pub exchange_event : Bool → ℕ → CountedPtr → Event T
  exchange_event true t c = null_event t c.ptr
  exchange_event false t c = silent

  abbrev pub increase_event : (overflows : Bool) → ℕ → CountedPtr → State T → Event T
  increase_event true t c s = silent
  increase_event false t c s = exchange_event (same s.head c) t c

  abbrev pub holding_event : ℕ → Pointer → Event T
  holding_event t none = gave t none
  holding_event t (some p) = silent

  abbrev pub take_event : Bool → ℕ → Event T
  take_event true t = popped t
  take_event false t = silent

  -- The return of a `pop`, if it has nothing to delete before.
  abbrev pub return_event : (last : Bool) → ℕ → After T → Event T
  return_event true t a = silent
  return_event false t (returns res) = gave t res
  return_event false t (repeats c) = silent

  abbrev pub add_event : ℕ → ℕ → Option T → Option (Node T) → Event T
  add_event t e res none = silent
  add_event t e res (some k) =
      return_event (k.internal_count == (2 ^ 32 - (e - 2)) % 2 ^ 32) t (returns res)

  abbrev pub continue_event : (spurious : Bool) → Place T → ℕ → State T → Event T
  continue_event w (returned res) t s = silent
  continue_event w (loading p) t s = silent
  continue_event w (inserting p) t s = insert_event w t s.head (s.heap p)
  continue_event w entering t s = silent
  continue_event w (increasing c) t s = increase_event (c.external_count == int_max) t c s
  continue_event w (holding c) t s = holding_event t c.ptr
  continue_event w (comparing e p next) t s =
      take_event (same s.head (record { external_count = e; ptr = some p })) t
  continue_event w (taking e p) t s = silent
  continue_event w (adding e p res) t s = add_event t e res (s.heap p)
  continue_event w (dropping p c) t s = silent
  continue_event w (deleting p a) t s = return_event false t a

  abbrev pub event : Op T → State T → Event T
  event (pushes t d p) s = start_event (s.places t) (new_event t d (s.heap p))
  event (pops t) s = start_event (s.places t) silent
  event (continues w t) s = continue_event w (s.places t) t s

  -- A step uses no deleted node; an abstract stack allows what it shows; and `P` holds of the state then.
  abbrev pub GoesOn : (State T → Type ℓ) → Event T → Model T → Outcome T → Type ℓ
  GoesOn P e m (went s) = Allowed e m × P s
  GoesOn P e m overflowed = Unit
  GoesOn P e m freed_fault = ⊥ × Unit {ℓ}

  abbrev pub Keeps : ℕ → Event T → Model T → Outcome T → Type ℓ
  Keeps n e m o = GoesOn (λ s. Inv n (after e m) s) e m o

  -- So does every step of a run, up to one in which an external count overflows, if there is one.
  unfoldable pub Behaves : List (Op T) → State T → Model T → Type ℓ
  unfolding step
  Behaves [] s m = Unit
  Behaves (o ∷ os) s m = GoesOn (λ s'. Behaves os s' (after (event o s) m)) (event o s) m (step o s)

same_ptr-eq : (p q : Pointer) → same_ptr p q ≡ true → p ≡ q
same_ptr-eq none none e = refl
same_ptr-eq none (some b) e = cc
same_ptr-eq (some a) none e = cc
same_ptr-eq (some a) (some b) e = ap some (sym ((==_iff b a).0 e))

-- A compare_exchange that exchanges has found the value that it expects.
pub same-eq :
    (c d : CountedPtr) → same c d ≡ true → (c.external_count ≡ d.external_count) × (c.ptr ≡ d.ptr)
same-eq c d e = elim (Bool-cases (c.external_count == d.external_count)) [
  | inl counts ↦ (
    (==_iff c.external_count d.external_count).0 counts,
    same_ptr-eq c.ptr d.ptr (rw counts at e),
  )
  | inr differ ↦ absurd (false_ne_true (rw differ at e))
]
  where
    false_ne_true : ◌≡◌ {A = Bool} false true → ⊥
    false_ne_true h = cc
