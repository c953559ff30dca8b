-- ===== src/LockFreeQueue.antt =====
-- chapter07_lock_free_data_structures/lock_free_queue.h: `lock_free_queue`, for the one thread that
-- pushes and the one that pops for which it is made. A step of a thread is one access to an atomic
-- or one write to a node, so pushes and pops interleave. `none` is undefined behaviour: the use of
-- a null pointer, or of a deleted node.
pub mod Invariant
pub mod Steps
pub mod Fifo
mod Examples
use concurrency_in_action.Common.{
  ℕ, zero, suc, Bool, true, false, Option, none, some, List, [], ◌∷◌, ◌>>=◌, update,
}
use concurrency_in_action.Nodes.{Node, Pointer, new_node, is_at}

-- Where the thread that pushes is: `p` is the new node, `e` the tail that it loaded.
pub data Producer {ℓ} (T : Type ℓ) : Type ℓ where
  resting : Producer T
  filling : (v : T) (p e : ℕ) → Producer T
  linking : (v : T) (p e : ℕ) → Producer T
  publishing : (v : T) (p e : ℕ) → Producer T

-- Where the thread that pops is: `a` is the head that it loaded.
pub data Consumer {ℓ} (T : Type ℓ) : Type ℓ where
  resting : Consumer T
  testing : (a : Pointer) → Consumer T
  moving : (a : Pointer) → Consumer T
  reading : (a : Pointer) → Consumer T
  deleting : (a : Pointer) (res : Option T) → Consumer T

pub record Queue {ℓ} (T : Type ℓ) : Type ℓ where
  pub heap : ℕ → Option (Node T)
  pub fresh : ℕ
  pub head : Pointer
  pub tail : ℕ
  pub producer : Producer T
  pub consumer : Consumer T

-- What a step shows: a push or a pop that ends, with the pointer that `pop` returns.
pub data Event {ℓ} (T : Type ℓ) : Type ℓ where
  silent : Event T
  pushed : T → Event T
  popped : Option T → Event T

module _ {ℓ} {T : Type ℓ} where
  -- The constructor.
  abbrev pub new_queue : Queue T
  new_queue = record {
    heap = update (λ a. none) 0 (some new_node);
    fresh = 1;
    head = some 0;
    tail = 0;
    producer = Producer.resting;
    consumer = Consumer.resting;
  }

  abbrev pub deref : (ℕ → Option (Node T)) → Pointer → Option (Node T)
  deref heap none = none
  deref heap (some a) = heap a

  -- `delete`, of a node that is there.
  abbrev pub delete : Pointer → Queue T → Option (Queue T)
  delete none q = none
  delete (some a) q = do old ← q.heap a; some (record q { heap = update q.heap a none })

  -- `push` up to the load of the tail,
  abbrev pub start_push : T → Producer T → Queue T → Queue T
  start_push v Producer.resting q = record q {
    heap = update q.heap q.fresh (some new_node);
    fresh = suc q.fresh;
    producer = Producer.filling v q.fresh q.tail;
  }
  start_push v (Producer.filling w p e) q = q
  start_push v (Producer.linking w p e) q = q
  start_push v (Producer.publishing w p e) q = q

  -- and each later line of it.
  unfoldable pub continue_push : Producer T → Queue T → Option (Event T × Queue T)
  continue_push Producer.resting q = some (Event.silent, q)
  continue_push (Producer.filling v p e) q = do
    old_tail ← q.heap e
    some (
      Event.silent,
      record q {
        heap = update q.heap e (some (record old_tail { data_ = some v }));
        producer = Producer.linking v p e;
      },
    )
  continue_push (Producer.linking v p e) q = do
    old_tail ← q.heap e
    some (
      Event.silent,
      record q {
        heap = update q.heap e (some (record old_tail { next = some p }));
        producer = Producer.publishing v p e;
      },
    )
  continue_push (Producer.publishing v p e) q =
      some (Event.pushed v, record q { tail = p; producer = Producer.resting })

  -- `if (old_head == tail.load()) return nullptr;`
  abbrev pub after_test : Bool → Pointer → Queue T → Event T × Queue T
  after_test true a q = (Event.popped none, record q { consumer = Consumer.resting })
  after_test false a q = (Event.silent, record q { consumer = Consumer.moving a })

  -- `pop`, with `pop_head`, from one line to the next.
  unfoldable pub continue_pop : Consumer T → Queue T → Option (Event T × Queue T)
  continue_pop Consumer.resting q =
      some (Event.silent, record q { consumer = Consumer.testing q.head })
  continue_pop (Consumer.testing a) q = some (after_test (is_at a q.tail) a q)
  continue_pop (Consumer.moving a) q = do
    old_head ← deref q.heap a
    some (Event.silent, record q { head = old_head.next; consumer = Consumer.reading a })
  continue_pop (Consumer.reading a) q = do
    old_head ← deref q.heap a
    some (Event.silent, record q { consumer = Consumer.deleting a old_head.data_ })
  continue_pop (Consumer.deleting a res) q = do
    q' ← delete a q
    some (Event.popped res, record q' { consumer = Consumer.resting })

  -- A round of the destructor's loop, when no other thread uses the queue,
  abbrev pub destroy_head : ℕ → Queue T → Option (Queue T)
  destroy_head a q = do old_head ← q.heap a; delete (some a) (record q { head = old_head.next })

  -- and the loop; the fuel is its rounds.
  unfoldable pub destroy : ℕ → Pointer → Queue T → Option (Queue T)
  destroy zero p q = none
  destroy (suc k) none q = some q
  destroy (suc k) (some a) q = do q' ← destroy_head a q; destroy k q'.head q'

pub data Op {ℓ} (T : Type ℓ) : Type ℓ where
  starts_push : T → Op T
  pushes_on pops_on : Op T

module _ {ℓ} {T : Type ℓ} where
  unfoldable pub step : Op T → Queue T → Option (Event T × Queue T)
  unfolding continue_push continue_pop
  step (starts_push v) q = some (Event.silent, start_push v q.producer q)
  step pushes_on q = continue_push q.producer q
  step pops_on q = continue_pop q.consumer q

  -- A run of the two threads: the events in order, and the last state.
  unfoldable pub run : List (Op T) → Queue T → Option (List (Event T) × Queue T)
  unfolding step
  run [] q = some ([], q)
  run (o ∷ os) q = do
    (event, q') ← step o q
    (events, last) ← run os q'
    some (event ∷ events, last)
