-- ===== src/ThreadSafeQueueRevised.antt =====
-- chapter06_lock_based_data_structures/thread_safe_queue_revised.h: `ThreadSafeQueueRevised`, a queue
-- of shared pointers. The objects that the pointers share are in a store, since a pop by reference
-- moves the value out of the object, and a copy of the queue holds the same pointers. Under the
-- mutex each operation is one step; a wait is one step up to the sleep, and one for each wake-up.
pub mod Fifo
mod Examples
use concurrency_in_action.Common.{
  ℕ, zero, suc, Bool, true, false, Option, none, some, List, [], ◌∷◌, ◌++◌, update,
}
use concurrency_in_action.Condition.{
  Condition, no_waiters, notify_one, fall_asleep, return_from_wait,
}

-- The objects made by `make_shared`; the next one gets the number `fresh`.
pub record Store {ℓ} (T : Type ℓ) : Type ℓ where
  pub object : ℕ → T
  pub fresh : ℕ

pub record Queue : Type 0 where
  pub data_queue : List ℕ
  pub data_cond : Condition

-- The overloads with `T &value`, and those that return a pointer.
pub data Overload : Type 0 where
  by_reference by_pointer : Overload

pub data Op {ℓ} (T : Type ℓ) : Type ℓ where
  pushes : T → Op T
  waits resumes tries : Overload → Op T
  spurious : Op T

abbrev pub new_queue : Queue
new_queue = record { data_queue = []; data_cond = no_waiters }

-- The copy constructor: the same pointers.
abbrev pub copy : Queue → Queue
copy other = record { data_queue = other.data_queue; data_cond = no_waiters }

abbrev pub is_nil : List ℕ → Bool
is_nil [] = true
is_nil (a ∷ rest) = false

unfoldable pub empty : Queue → Bool
empty q = is_nil q.data_queue

-- `moved` is what a move leaves behind.
module _ {ℓ} {T : Type ℓ} (moved : T → T) where
  abbrev pub make_shared : T → Store T → Store T
  make_shared v s = record { object = update s.object s.fresh v; fresh = suc s.fresh }

  -- What is done to the object that was at the front: `*front` is moved, or its pointer copied.
  abbrev pub hand_out : Overload → ℕ → Store T → Store T
  hand_out by_reference a s = record s { object = update s.object a (moved (s.object a)) }
  hand_out by_pointer a s = s

  unfoldable pub push : T → Store T × Queue → Store T × Queue
  unfolding notify_one
  push new_value (s, q) = (
    make_shared new_value s,
    record q { data_queue = q.data_queue ++ (s.fresh ∷ []); data_cond = notify_one q.data_cond },
  )

  -- The value with the popped object, as the caller finds it.
  abbrev pub pop_front : Overload → ℕ → List ℕ → Store T × Queue → Option T × (Store T × Queue)
  pop_front o a rest (s, q) = (some (s.object a), (hand_out o a s, record q { data_queue = rest }))

  abbrev pub wait_on : Overload → List ℕ → Store T × Queue → Option T × (Store T × Queue)
  wait_on o [] (s, q) = (none, (s, record q { data_cond = fall_asleep q.data_cond }))
  wait_on o (a ∷ rest) (s, q) = pop_front o a rest (s, q)

  abbrev pub try_on : Overload → List ℕ → Store T × Queue → Option T × (Store T × Queue)
  try_on o [] (s, q) = (none, (s, q))
  try_on o (a ∷ rest) (s, q) = pop_front o a rest (s, q)

  -- `WaitAndPop`, up to its return or its sleep,
  unfoldable pub wait_and_pop : Overload → Store T × Queue → Option T × (Store T × Queue)
  wait_and_pop o (s, q) = wait_on o q.data_queue (s, q)

  -- and after a wake-up, if there was one.
  abbrev pub resume_as : ℕ → Overload → Store T × Queue → Option T × (Store T × Queue)
  resume_as zero o (s, q) = (none, (s, q))
  resume_as (suc n) o (s, q) =
      wait_on o q.data_queue (s, record q { data_cond = return_from_wait q.data_cond })

  unfoldable pub resume : Overload → Store T × Queue → Option T × (Store T × Queue)
  resume o (s, q) = resume_as q.data_cond.woken o (s, q)

  -- `TryPop`.
  unfoldable pub try_pop : Overload → Store T × Queue → Option T × (Store T × Queue)
  try_pop o (s, q) = try_on o q.data_queue (s, q)

  unfoldable pub step : Op T → Store T × Queue → Option T × (Store T × Queue)
  unfolding push wait_and_pop resume try_pop notify_one
  step (pushes v) (s, q) = (none, push v (s, q))
  step (waits o) (s, q) = wait_and_pop o (s, q)
  step (resumes o) (s, q) = resume o (s, q)
  step (tries o) (s, q) = try_pop o (s, q)
  step spurious (s, q) = (none, (s, record q { data_cond = notify_one q.data_cond }))

  abbrev pub emit : Option T → List T → List T
  emit none out = out
  emit (some x) out = x ∷ out

  -- A run: the values popped, in order, and the last state.
  unfoldable pub run : List (Op T) → Store T × Queue → List T × (Store T × Queue)
  unfolding step
  run [] p = ([], p)
  run (op ∷ ops) p =
      let (value, p') = step op p in let (out, last) = run ops p' in (emit value out, last)
