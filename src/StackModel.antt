-- ===== src/StackModel.antt =====
-- An abstract stack of shared pointers, for the lock-free stacks of
-- chapter07_lock_free_data_structures (lock_free_stack.h and lock_free_stack_ref_count.h), and what their
-- runs show.
use concurrency_in_action.Common.{refl, ℕ, ◌≡◌, ◌≢◌, Option, none, some, All, List, [], ◌∷◌, update}

-- An abstract stack, its top first, and what each thread has in hand: what it pushes, or has popped last.
pub record Model {ℓ} (T : Type ℓ) : Type ℓ where
  pub contents : List (Option T)
  pub in_hand : ℕ → Option T

-- A `push` begins, with its data; its node comes on the stack, with the data that it has then; a thread
-- takes the node on top, or finds that there is none; a `pop` returns.
pub data Event {ℓ} (T : Type ℓ) : Type ℓ where
  silent : Event T
  offers pushed : (t : ℕ) (d : Option T) → Event T
  popped was_empty : (t : ℕ) → Event T
  gave : (t : ℕ) (res : Option T) → Event T

module _ {ℓ} {T : Type ℓ} where
  abbrev pub take_top : ℕ → List (Option T) → Model T → Model T
  take_top t [] m = m
  take_top t (d ∷ rest) m = record { contents = rest; in_hand = update m.in_hand t d }

  abbrev pub after : Event T → Model T → Model T
  after silent m = m
  after (offers t d) m = record m { in_hand = update m.in_hand t d }
  after (pushed t d) m = record m { contents = d ∷ m.contents }
  after (popped t) m = take_top t m.contents m
  after (was_empty t) m = record m { in_hand = update m.in_hand t none }
  after (gave t res) m = m

  -- What comes on the stack is what its thread pushes; a stack that is popped has a value, one that is found empty has none, and a `pop` returns what its
  -- thread took, or null if it found none.
  abbrev pub Allowed : Event T → Model T → Type ℓ
  Allowed silent m = Unit
  Allowed (offers t d) m = Unit
  Allowed (pushed t d) m = (v : T) × (d ≡ some v) × (m.in_hand t ≡ some v)
  Allowed (popped t) m = m.contents ≢ []
  Allowed (was_empty t) m = m.contents ≡ []
  Allowed (gave t res) m = res ≡ m.in_hand t

  -- Nothing is on the stack, and no thread has popped.
  abbrev pub empty_model : Model T
  empty_model = record { contents = []; in_hand = λ t. none }

  abbrev pub HasData : Option T → Type ℓ
  HasData d = (v : T) × (d ≡ some v)

  take_top-HasData :
      (t : ℕ) (ds : List (Option T)) (m : Model T)
      → m.contents ≡ ds
      → All HasData ds
      → All HasData (take_top t ds m).contents
  take_top-HasData t [] m e h = rw e tt
  take_top-HasData t (d ∷ rest) m e (here, there) = there

  -- What is on the stack was pushed.
  pub after-HasData :
      (e : Event T) (m : Model T)
      → Allowed e m
      → All HasData m.contents
      → All HasData (after e m).contents
  after-HasData silent m a h = h
  after-HasData (offers t d) m a h = h
  after-HasData (pushed t d) m (v, same, in_hand) h = ((v, same), h)
  after-HasData (popped t) m a h = take_top-HasData t m.contents m refl h
  after-HasData (was_empty t) m a h = h
  after-HasData (gave t res) m a h = h
