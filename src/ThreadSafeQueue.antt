-- ===== src/ThreadSafeQueue.antt =====
-- chapter04/thread_safe_queue.h: the class `ThreadSafeQueue`. The mutex makes each operation one
-- step; a wait is one step up to the sleep, and one for each time that the thread is woken. The two
-- overloads of a pop do the same to the queue, and hand the value out in two ways.
pub mod Fifo
pub mod Wakeups
mod Examples
use concurrency_in_action.Common.{
  ℕ, zero, suc, Bool, true, false, Option, none, some, List, [], ◌∷◌, ◌++◌,
}
use concurrency_in_action.Condition.{
  Condition, no_waiters, notify_one, fall_asleep, return_from_wait,
}

pub record ThreadSafeQueue {ℓ} (A : Type ℓ) : Type ℓ where
  pub data_queue : List A
  pub data_cond : Condition

-- What threads may do to the queue, one step each. `spurious` is a wake-up that nobody sent.
pub data Op {ℓ} (A : Type ℓ) : Type ℓ where
  pushes : A → Op A
  waits resumes spurious tries : Op A

module _ {ℓ} {A : Type ℓ} where
  abbrev pub new_queue : ThreadSafeQueue A
  new_queue = record { data_queue = []; data_cond = no_waiters }

  -- The copy constructor.
  unfoldable pub copy : ThreadSafeQueue A → ThreadSafeQueue A
  copy other = record { data_queue = other.data_queue; data_cond = no_waiters }

  unfoldable pub push : A → ThreadSafeQueue A → ThreadSafeQueue A
  unfolding notify_one
  push new_value q = record {
    data_queue = q.data_queue ++ (new_value ∷ []);
    data_cond = notify_one q.data_cond;
  }

  abbrev pub test : List A → ThreadSafeQueue A → ThreadSafeQueue A × Option A
  test [] q = (record q { data_cond = fall_asleep q.data_cond }, none)
  test (v ∷ rest) q = (record q { data_queue = rest }, some v)

  -- `WaitAndPop` up to its return or its sleep; `none` means that the thread sleeps.
  unfoldable pub wait_and_pop : ThreadSafeQueue A → ThreadSafeQueue A × Option A
  wait_and_pop q = test q.data_queue q

  -- The same wait, when the thread has been woken and has the mutex again.
  abbrev pub resume_as : ℕ → ThreadSafeQueue A → ThreadSafeQueue A × Option A
  resume_as zero q = (q, none)
  resume_as (suc n) q = test q.data_queue (record q { data_cond = return_from_wait q.data_cond })

  unfoldable pub resume : ThreadSafeQueue A → ThreadSafeQueue A × Option A
  resume q = resume_as q.data_cond.woken q

  abbrev pub take : List A → ThreadSafeQueue A → ThreadSafeQueue A × Option A
  take [] q = (q, none)
  take (v ∷ rest) q = (record q { data_queue = rest }, some v)

  -- `TryPop`: `none` is `false`, or the null pointer.
  unfoldable pub try_pop : ThreadSafeQueue A → ThreadSafeQueue A × Option A
  try_pop q = take q.data_queue q

  abbrev pub is_nil : List A → Bool
  is_nil [] = true
  is_nil (x ∷ xs) = false

  unfoldable pub empty : ThreadSafeQueue A → Bool
  empty q = is_nil q.data_queue

  unfoldable pub step : Op A → ThreadSafeQueue A → ThreadSafeQueue A × Option A
  unfolding push wait_and_pop resume try_pop notify_one
  step (pushes v) q = (push v q, none)
  step waits q = wait_and_pop q
  step resumes q = resume q
  step spurious q = (record q { data_cond = notify_one q.data_cond }, none)
  step tries q = try_pop q

  abbrev pub cons_some : Option A → List A → List A
  cons_some none xs = xs
  cons_some (some x) xs = x ∷ xs

  -- The queue after some steps, and the values that were popped, in order.
  unfoldable pub run : List (Op A) → ThreadSafeQueue A → ThreadSafeQueue A × List A
  run [] q = (q, [])
  run (op ∷ ops) q =
      let (q', out) = step op q in let (q'', outs) = run ops q' in (q'', cons_some out outs)

  -- The values that are pushed, in order.
  abbrev pub pushed : List (Op A) → List A
  pushed [] = []
  pushed (pushes v ∷ ops) = v ∷ pushed ops
  pushed (_ ∷ ops) = pushed ops
