-- ===== src/SimpleQueue.antt =====
-- chapter06_lock_based_data_structures/simple_queue.h: `simple_thread_safe_queue`, its nodes on a
-- heap. A push holds the tail mutex for all that it does; a pop holds the head mutex from the test
-- to its end, and the tail mutex only while it reads the tail. So a push may come between a pop's
-- test and the rest of that pop, and no other pop may. `none` is undefined behaviour: the use of a
-- null pointer, or of a deleted node.
pub mod Fifo
mod Examples
use concurrency_in_action.Common.{
  ℕ, zero, suc, Bool, true, false, ◌==◌, if◌then◌else◌, Option, none, some, List, [], ◌∷◌, ◌++◌,
  ◌>>=◌, update,
}
use concurrency_in_action.Nodes.{Node, Pointer, new_node, is_at}
use concurrency_in_action.Condition.{
  Condition, no_waiters, notify_one, fall_asleep, return_from_wait,
}

-- The thread that holds the head mutex: none, one that found `head == tail` false, one that found
-- it true.
pub data Holder : Type 0 where
  nobody found missed : Holder

-- `heap` holds the live nodes; the allocator gives out `fresh` next.
pub record Queue {ℓ} (T : Type ℓ) : Type ℓ where
  pub heap : ℕ → Option (Node T)
  pub fresh : ℕ
  pub head : Pointer
  pub tail : ℕ
  pub data_cond : Condition
  pub holder : Holder

abbrev pub found_if : Bool → Holder
found_if true = missed
found_if false = found

module _ {ℓ} {T : Type ℓ} where
  -- The constructor.
  abbrev pub new_queue : Queue T
  new_queue = record {
    heap = update (λ a. none) 0 (some new_node);
    fresh = 1;
    head = some 0;
    tail = 0;
    data_cond = no_waiters;
    holder = nobody;
  }

  abbrev pub test : Queue T → Queue T
  test q = record q { holder = found_if (is_at q.head q.tail) }

  -- `push` under the tail mutex, and its notification: the new value goes into the node that was the
  -- last, and a new empty node behind it.
  abbrev pub link : T → Queue T → Queue T
  link new_value q = record q {
    heap =
        update (update q.heap q.fresh (some new_node)) q.tail
          (some (record { data_ = some new_value; next = some q.fresh }));
    fresh = suc q.fresh;
    tail = q.fresh;
    data_cond = notify_one q.data_cond;
  }

  unfoldable pub push : T → Queue T → Option (Queue T)
  unfolding notify_one
  push new_value q = do old_tail ← q.heap q.tail; some (link new_value q)

  abbrev pub unlink : ℕ → Node T → Queue T → Queue T
  unlink a old_head q = record q { heap = update q.heap a none; head = old_head.next }

  -- `pop_head`, then the deletion of the node that it returns, whose data the caller gets.
  unfoldable pub pop_head : Queue T → Option (Option T × Queue T)
  pop_head q = do a ← q.head; old_head ← q.heap a; some (old_head.data_, unlink a old_head q)

  -- A pop begins: it takes the head mutex, and tests.
  abbrev pub start_pop : Holder → Queue T → Queue T
  start_pop nobody q = test q
  start_pop found q = q
  start_pop missed q = q

  -- A thread that was woken takes the head mutex, and tests again.
  abbrev pub resume : Holder → ℕ → Queue T → Queue T
  resume nobody zero q = q
  resume nobody (suc n) q = test (record q { data_cond = return_from_wait q.data_cond })
  resume found n q = q
  resume missed n q = q

  -- The pop ends after a test that found data; `none` in the pair is no value.
  abbrev pub finish_pop : Holder → Queue T → Option (Option T × Queue T)
  finish_pop nobody q = some (none, q)
  finish_pop missed q = some (none, q)
  finish_pop found q = do (value, q') ← pop_head q; some (value, record q' { holder = nobody })

  -- After a test that found no data, `try_pop` returns null,
  abbrev pub give_up : Holder → Queue T → Queue T
  give_up nobody q = q
  give_up found q = q
  give_up missed q = record q { holder = nobody }

  -- and `wait_for_data` sleeps.
  abbrev pub sleep : Holder → Queue T → Queue T
  sleep nobody q = q
  sleep found q = q
  sleep missed q = record q { holder = nobody; data_cond = fall_asleep q.data_cond }

-- What some thread does next. A step for which no thread is ready changes nothing.
pub data Op {ℓ} (T : Type ℓ) : Type ℓ where
  pushes : T → Op T
  starts_pop resumes finishes_pop gives_up sleeps : Op T

module _ {ℓ} {T : Type ℓ} where
  unfoldable pub step : Op T → Queue T → Option (Option T × Queue T)
  unfolding push pop_head
  step (pushes x) q = do q' ← push x q; some (none, q')
  step starts_pop q = some (none, start_pop q.holder q)
  step resumes q = some (none, resume q.holder q.data_cond.woken q)
  step finishes_pop q = finish_pop q.holder q
  step gives_up q = some (none, give_up q.holder q)
  step sleeps q = some (none, sleep q.holder q)

  abbrev pub emit : Option T → List T → List T
  emit none out = out
  emit (some x) out = x ∷ out

  -- A run: the values handed out, in order, and the last state.
  unfoldable pub run : List (Op T) → Queue T → Option (List T × Queue T)
  unfolding step
  run [] q = some ([], q)
  run (o ∷ os) q = do (value, q') ← step o q; (out, last) ← run os q'; some (emit value out, last)
