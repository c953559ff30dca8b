-- ===== src/LockFreeStack.antt =====
-- chapter07_lock_free_data_structures/lock_free_stack.h: `push`, `pop` and `try_reclaim` of
-- `lock_free_stack`, for any number of threads. A step of a thread is one access to an atomic or to a
-- node. `new` may give any address at which no node is, also one that was deleted before.
pub mod Count
pub mod Accounting
pub mod Labels
pub mod Chains
pub mod Roles
pub mod Frames
pub mod Rebuild
pub mod Events
pub mod Writes
pub mod Alone
pub mod PushSteps
pub mod PopSteps
pub mod ReclaimSteps
pub mod DeleteSteps
pub mod ChainSteps
pub mod Safety
mod Examples
use concurrency_in_action.Common.{
  ℕ, ◌+◌, ◌-◌, ◌%◌, ◌^◌, Bool, true, false, ◌==◌, if◌then◌else◌, Option, none, some, List, [], ◌∷◌,
  update,
}
use concurrency_in_action.Nodes.{Node, Pointer, is_at}

-- What a thread does after it has chained nodes: it deletes `old_head`, or decrements the count.
pub data After : Type 0 where
  deletes : (old_head : Pointer) → After
  leaves : After

-- Where a thread is; `res` is what its `pop` is to return.
pub data Place {ℓ} (T : Type ℓ) : Type ℓ where
  -- It is in no call, and `res` is what its last `pop` returned.
  returned : (res : Option T) → Place T
  -- `push`: before the load of the head, and before the compare_exchange.
  loading inserting : (new_node : ℕ) → Place T
  -- `pop`, up to the swap of the data.
  entering loading_head : Place T
  looping : (old_head : Pointer) → Place T
  comparing : (old_head : ℕ) (next : Pointer) → Place T
  taking : (old_head : ℕ) → Place T
  -- `try_reclaim`: its test, the claim of the pending nodes, and the decrement behind it.
  reclaiming claiming : (old_head : Pointer) (res : Option T) → Place T
  counting : (nodes old_head : Pointer) (res : Option T) → Place T
  -- `delete_nodes`, and `delete old_head`.
  deleting_nodes : (nodes old_head : Pointer) (res : Option T) → Place T
  deleting : (old_head : Pointer) (res : Option T) → Place T
  -- `chain_pending_nodes`: the walk to the last node, the write of its link, the compare_exchange.
  walking : (first last : ℕ) (after : After) (res : Option T) → Place T
  linking chaining : (first last : Pointer) (after : After) (res : Option T) → Place T
  -- The decrement at the end of `try_reclaim`.
  leaving : (res : Option T) → Place T

pub record State {ℓ} (T : Type ℓ) : Type ℓ where
  pub heap : ℕ → Option (Node T)
  pub head : Pointer
  pub threads_in_pop : ℕ
  pub to_be_deleted : Pointer
  pub places : ℕ → Place T

-- `null_fault` is the use of a null pointer, `freed_fault` that of a deleted node.
pub data Outcome {ℓ} (T : Type ℓ) : Type ℓ where
  went : State T → Outcome T
  null_fault freed_fault : Outcome T

-- A thread goes on; where its next step is a compare_exchange_weak, that may fail spuriously. A
-- `push` starts with `new`, which gives the address `p`.
pub data Op {ℓ} (T : Type ℓ) : Type ℓ where
  pushes : (t : ℕ) → T → (p : ℕ) → Op T
  pops : (t : ℕ) → Op T
  continues : (spurious : Bool) (t : ℕ) → Op T

abbrev pub same : Pointer → Pointer → Bool
same none none = true
same none (some b) = false
same (some a) p = is_at p a

-- `++threads_in_pop` and `--threads_in_pop`, of an unsigned.
abbrev pub increment : ℕ → ℕ
increment n = (n + 1) % 2 ^ 32

abbrev pub decrement : ℕ → ℕ
decrement n = (n + (2 ^ 32 - 1)) % 2 ^ 32

module _ {ℓ} {T : Type ℓ} where
  -- The atomics as C++20 initializes them.
  abbrev pub new_stack : State T
  new_stack = record {
    heap = λ p. none;
    head = none;
    threads_in_pop = 0;
    to_be_deleted = none;
    places = λ t. returned none;
  }

  abbrev pub goes : ℕ → Place T → State T → Outcome T
  goes t p s = went (record s { places = update s.places t p })

  abbrev pub use_node : Option (Node T) → (Node T → Outcome T) → Outcome T
  use_node none next = freed_fault
  use_node (some n) next = next n

  -- A use of the node to which a pointer points.
  abbrev pub deref : Pointer → State T → (Node T → Outcome T) → Outcome T
  deref none s next = null_fault
  deref (some p) s next = use_node (s.heap p) next

  abbrev pub write : Pointer → Node T → State T → State T
  write none n s = s
  write (some p) n s = record s { heap = update s.heap p (some n) }

  -- `delete`, which does nothing to a null pointer.
  abbrev pub delete : Pointer → State T → Outcome T
  delete none s = went s
  delete (some p) s = use_node (s.heap p) (λ n. went (record s { heap = update s.heap p none }))

  abbrev pub and_goes : ℕ → Place T → Outcome T → Outcome T
  and_goes t p (went s) = goes t p s
  and_goes t p null_fault = null_fault
  and_goes t p freed_fault = freed_fault

  -- `push`, its compare_exchange: `exchanges` when the head is what the new node's `next` is.
  abbrev pub insert : (exchanges : Bool) (t p : ℕ) → Node T → State T → Outcome T
  insert true t p n s = goes t (returned none) (record s { head = some p })
  insert false t p n s = goes t (inserting p) (write (some p) (record n { next = s.head }) s)

  -- `pop`, its compare_exchange.
  abbrev pub take_head : (exchanges : Bool) (t p : ℕ) → Pointer → State T → Outcome T
  take_head true t p next s = goes t (taking p) (record s { head = next })
  take_head false t p next s = goes t (looping s.head) s

  -- `old_head &&`, and the load of `old_head->next`.
  abbrev pub loop_test : Pointer → (t : ℕ) → State T → Outcome T
  loop_test none t s = goes t (reclaiming none none) s
  loop_test (some p) t s = deref (some p) s (λ n. goes t (comparing p n.next) s)

  abbrev pub after_chain : After → Option T → Place T
  after_chain (deletes old_head) res = deleting old_head res
  after_chain leaves res = leaving res

  -- `chain_pending_nodes(first, last)`, its compare_exchange.
  abbrev pub chain :
      (exchanges : Bool) (t : ℕ)
      → Pointer
      → Pointer
      → After
      → Option T
      → Node T
      → State T
      → Outcome T
  chain true t first last after res n s =
      goes t (after_chain after res) (record s { to_be_deleted = first })
  chain false t first last after res n s =
      goes t (chaining first last after res) (write last (record n { next = s.to_be_deleted }) s)

  -- `try_reclaim`: the test of the count.
  abbrev pub try_reclaim : (alone : Bool) (t : ℕ) → Pointer → Option T → State T → Outcome T
  try_reclaim true t old_head res s = goes t (claiming old_head res) s
  try_reclaim false t old_head res s = goes t (linking old_head old_head leaves res) s

  -- `try_reclaim`: what is done with the pending nodes that were claimed.
  abbrev pub delete_or_chain : (alone : Bool) → Pointer → Pointer → Option T → Place T
  delete_or_chain true nodes old_head res = deleting_nodes nodes old_head res
  delete_or_chain false none old_head res = deleting old_head res
  delete_or_chain false (some p) old_head res = walking p p (deletes old_head) res

  -- `chain_pending_nodes(nodes)`: a round of its loop.
  abbrev pub walk : (first last : ℕ) → Pointer → After → Option T → Place T
  walk first last none after res = linking (some first) (some last) after res
  walk first last (some next) after res = walking first next after res

  -- `delete_nodes`: a round of its loop.
  abbrev pub delete_nodes : Pointer → Pointer → (t : ℕ) → Option T → State T → Outcome T
  delete_nodes none old_head t res s = goes t (deleting old_head res) s
  delete_nodes (some p) old_head t res s =
      deref (some p) s (λ n. and_goes t (deleting_nodes n.next old_head res) (delete (some p) s))

  unfoldable pub continue : (spurious : Bool) → Place T → (t : ℕ) → State T → Outcome T
  continue w (returned res) t s = went s
  continue w (loading p) t s =
      deref (some p) s (λ n. goes t (inserting p) (write (some p) (record n { next = s.head }) s))
  continue w (inserting p) t s =
      deref (some p) s (λ n. insert (if w then false else same s.head n.next) t p n s)
  continue w entering t s =
      goes t loading_head (record s { threads_in_pop = increment s.threads_in_pop })
  continue w loading_head t s = goes t (looping s.head) s
  continue w (looping old_head) t s = loop_test old_head t s
  continue w (comparing p next) t s =
      take_head (if w then false else same s.head (some p)) t p next s
  continue w (taking p) t s =
      deref (some p) s
        (λ n. goes t (reclaiming (some p) n.data_) (write (some p) (record n { data_ = none }) s))
  continue w (reclaiming old_head res) t s = try_reclaim (s.threads_in_pop == 1) t old_head res s
  continue w (claiming old_head res) t s =
      goes t (counting s.to_be_deleted old_head res) (record s { to_be_deleted = none })
  continue w (counting nodes old_head res) t s =
      let n = decrement s.threads_in_pop in
      goes t (delete_or_chain (n == 0) nodes old_head res) (record s { threads_in_pop = n })
  continue w (deleting_nodes nodes old_head res) t s = delete_nodes nodes old_head t res s
  continue w (deleting old_head res) t s = and_goes t (returned res) (delete old_head s)
  continue w (walking first last after res) t s =
      deref (some last) s (λ n. goes t (walk first last n.next after res) s)
  continue w (linking first last after res) t s = deref last s (λ n.
      goes t (chaining first last after res) (write last (record n { next = s.to_be_deleted }) s))
  continue w (chaining first last after res) t s =
      deref last s
        (λ n. chain (if w then false else same s.to_be_deleted n.next) t first last after res n s)
  continue w (leaving res) t s =
      goes t (returned res) (record s { threads_in_pop = decrement s.threads_in_pop })

  -- `new node(data)`, at an address where no node is.
  abbrev pub start_push : Option (Node T) → (t : ℕ) → T → (p : ℕ) → State T → Outcome T
  start_push (some n) t v p s = went s
  start_push none t v p s =
      goes t (loading p) (write (some p) (record { data_ = some v; next = none }) s)

  -- A thread starts a call when it is in none.
  abbrev pub start : Place T → (t : ℕ) → Outcome T → State T → Outcome T
  start (returned res) t o s = o
  start (loading p) t o s = went s
  start (inserting p) t o s = went s
  start entering t o s = went s
  start loading_head t o s = went s
  start (looping p) t o s = went s
  start (comparing p n) t o s = went s
  start (taking p) t o s = went s
  start (reclaiming p res) t o s = went s
  start (claiming p res) t o s = went s
  start (counting n p res) t o s = went s
  start (deleting_nodes n p res) t o s = went s
  start (deleting p res) t o s = went s
  start (walking f l a res) t o s = went s
  start (linking f l a res) t o s = went s
  start (chaining f l a res) t o s = went s
  start (leaving res) t o s = went s

  unfoldable pub step : Op T → State T → Outcome T
  unfolding continue
  step (pushes t v p) s = start (s.places t) t (start_push (s.heap p) t v p s) s
  step (pops t) s = start (s.places t) t (goes t entering s) s
  step (continues w t) s = continue w (s.places t) t s

  unfoldable pub run : List (Op T) → State T → Outcome T
  unfolding step
  run [] s = went s
  run (o ∷ os) s = elim (step o s) [
    | went s' ↦ run os s'
    | null_fault ↦ null_fault
    | freed_fault ↦ freed_fault
  ]
