-- ===== src/RefCountStack.antt =====
-- chapter07_lock_free_data_structures/lock_free_stack_ref_count.h: `push` and `pop` of
-- `refcount::lock_free_stack`, for any number of threads. A step of a thread is one access to an atomic
-- or to a node. `new` may give any address at which no node is, also one that was deleted before.
-- An `atomic<int>` wraps, so `internal_count` is a number below 2 ^ 32; `++external_count` on the
-- greatest int is undefined, and is an outcome of its own.
pub mod Labels
pub mod Roles
pub mod Frames
pub mod Events
pub mod References
pub mod PushSteps
pub mod PopSteps
pub mod Settles
pub mod CountSteps
pub mod DropSteps
pub mod Safety
pub mod Destructor
pub mod Freed
pub mod Rest
mod Examples
use concurrency_in_action.Common.{
  ℕ, ◌+◌, ◌-◌, ◌%◌, ◌^◌, ◌≡◌, Bool, true, false, ◌==◌, ◌&&◌, if◌then◌else◌, Option, none, some,
  List, [], ◌∷◌, update,
}
use concurrency_in_action.Nodes.{Pointer, is_at}

-- `counted_node_ptr`.
pub record CountedPtr : Type 0 where
  pub external_count : ℕ
  pub ptr : Pointer

pub record Node {ℓ} (T : Type ℓ) : Type ℓ where
  pub data_ : Option T
  pub internal_count : ℕ
  pub next : CountedPtr

-- What a thread does after it has deleted a node: it returns, or goes on with the head that it has seen.
pub data After {ℓ} (T : Type ℓ) : Type ℓ where
  returns : (res : Option T) → After T
  repeats : (old_head : CountedPtr) → After T

-- Where a thread is.
pub data Place {ℓ} (T : Type ℓ) : Type ℓ where
  -- It is in no call, and `res` is what its last `pop` returned.
  returned : (res : Option T) → Place T
  -- `push`: before the load of the head, and before the compare_exchange.
  loading inserting : (new_node : ℕ) → Place T
  -- `pop`: before the load of the head; `increase_head_count`; with the count increased.
  entering : Place T
  increasing holding : (old_head : CountedPtr) → Place T
  -- Before the compare_exchange on the head, with `ptr->next`.
  comparing : (external_count ptr : ℕ) (next : CountedPtr) → Place T
  -- With the node taken: before the swap of the data, and before `fetch_add`.
  taking : (external_count ptr : ℕ) → Place T
  adding : (external_count ptr : ℕ) (res : Option T) → Place T
  -- Before `fetch_sub`, with the head that the compare_exchange has seen.
  dropping : (ptr : ℕ) (old_head : CountedPtr) → Place T
  deleting : (ptr : ℕ) → After T → Place T

pub record State {ℓ} (T : Type ℓ) : Type ℓ where
  pub heap : ℕ → Option (Node T)
  pub head : CountedPtr
  pub places : ℕ → Place T

-- `overflowed` is the increment of the greatest int, `freed_fault` the use of a deleted node.
pub data Outcome {ℓ} (T : Type ℓ) : Type ℓ where
  went : State T → Outcome T
  overflowed freed_fault : Outcome T

-- A thread goes on; where its next step is a compare_exchange_weak, that may fail spuriously. A
-- `push` starts with `new`, which gives the address `p`.
pub data Op {ℓ} (T : Type ℓ) : Type ℓ where
  pushes : (t : ℕ) → T → (p : ℕ) → Op T
  pops : (t : ℕ) → Op T
  continues : (spurious : Bool) (t : ℕ) → Op T

abbrev pub same_ptr : Pointer → Pointer → Bool
same_ptr none none = true
same_ptr none (some b) = false
same_ptr (some a) p = is_at p a

abbrev pub same : CountedPtr → CountedPtr → Bool
same a b = if a.external_count == b.external_count then same_ptr a.ptr b.ptr else false

-- The greatest int.
abbrev pub int_max : ℕ
int_max = 2147483647

module _ {ℓ} {T : Type ℓ} where
  abbrev pub new_stack : State T
  new_stack = record {
    heap = λ p. none;
    head = record { external_count = 0; ptr = none };
    places = λ t. returned none;
  }

  abbrev pub goes : ℕ → Place T → State T → Outcome T
  goes t p s = went (record s { places = update s.places t p })

  abbrev pub use_node : Option (Node T) → (Node T → Outcome T) → Outcome T
  use_node none next = freed_fault
  use_node (some k) next = next k

  abbrev pub write : ℕ → Node T → State T → State T
  write p k s = record s { heap = update s.heap p (some k) }

  -- `push`, its compare_exchange.
  abbrev pub insert : (exchanges : Bool) (t p : ℕ) → Node T → State T → Outcome T
  insert true t p k s =
      goes t (returned none) (record s { head = record { external_count = 1; ptr = some p } })
  insert false t p k s = goes t (inserting p) (write p (record k { next = s.head }) s)

  -- `increase_head_count`, its compare_exchange.
  abbrev pub exchange_count : (exchanges : Bool) (t : ℕ) → CountedPtr → State T → Outcome T
  exchange_count true t old_counter s =
      let new_counter : CountedPtr = record old_counter {
        external_count = old_counter.external_count + 1;
      } in
      goes t (holding new_counter) (record s { head = new_counter })
  exchange_count false t old_counter s = goes t (increasing s.head) s

  -- A round of `increase_head_count`, from its increment.
  abbrev pub increase_head_count : (overflows : Bool) (t : ℕ) → CountedPtr → State T → Outcome T
  increase_head_count true t old_counter s = overflowed
  increase_head_count false t old_counter s =
      exchange_count (same s.head old_counter) t old_counter s

  -- `if (!ptr)`, and the load of `ptr->next`.
  abbrev pub test_ptr : Pointer → (t external_count : ℕ) → State T → Outcome T
  test_ptr none t e s = goes t (returned none) s
  test_ptr (some p) t e s = use_node (s.heap p) (λ k. goes t (comparing e p k.next) s)

  -- `pop`, its compare_exchange.
  abbrev pub take_head :
      (exchanges : Bool) (t external_count p : ℕ) → CountedPtr → State T → Outcome T
  take_head true t e p next s = goes t (taking e p) (record s { head = next })
  take_head false t e p next s = goes t (dropping p s.head) s

  abbrev pub after_place : After T → Place T
  after_place (returns res) = returned res
  after_place (repeats old_head) = increasing old_head

  -- Where a thread goes that has seen whether it had the last reference.
  abbrev pub delete_if : (last : Bool) (p : ℕ) → After T → Place T
  delete_if true p a = deleting p a
  delete_if false p a = after_place a

  -- `internal_count.fetch_add(external_count - 2)`, and its test.
  abbrev pub add_count : (t external_count p : ℕ) → Option T → Node T → State T → Outcome T
  add_count t e p res k s =
      let count_increase = e - 2 in
      goes t (delete_if (k.internal_count == (2 ^ 32 - count_increase) % 2 ^ 32) p (returns res))
        (write p (record k { internal_count = (k.internal_count + count_increase) % 2 ^ 32 }) s)

  -- `internal_count.fetch_sub(1)`, and its test.
  abbrev pub sub_count : (t p : ℕ) → CountedPtr → Node T → State T → Outcome T
  sub_count t p old_head k s =
      goes t (delete_if (k.internal_count == 1) p (repeats old_head))
        (write p (record k { internal_count = (k.internal_count + (2 ^ 32 - 1)) % 2 ^ 32 }) s)

  unfoldable pub continue : (spurious : Bool) → Place T → (t : ℕ) → State T → Outcome T
  continue w (returned res) t s = went s
  continue w (loading p) t s =
      use_node (s.heap p) (λ k. goes t (inserting p) (write p (record k { next = s.head }) s))
  continue w (inserting p) t s =
      use_node (s.heap p) (λ k. insert (if w then false else same s.head k.next) t p k s)
  continue w entering t s = goes t (increasing s.head) s
  continue w (increasing old_head) t s =
      increase_head_count (old_head.external_count == int_max) t old_head s
  continue w (holding old_head) t s = test_ptr old_head.ptr t old_head.external_count s
  continue w (comparing e p next) t s =
      take_head (same s.head (record { external_count = e; ptr = some p })) t e p next s
  continue w (taking e p) t s =
      use_node (s.heap p) (λ k. goes t (adding e p k.data_) (write p (record k { data_ = none }) s))
  continue w (adding e p res) t s = use_node (s.heap p) (λ k. add_count t e p res k s)
  continue w (dropping p old_head) t s = use_node (s.heap p) (λ k. sub_count t p old_head k s)
  continue w (deleting p a) t s =
      use_node (s.heap p) (λ k. goes t (after_place a) (record s { heap = update s.heap p none }))

  -- `new node(data)`, at an address where no node is.
  abbrev pub start_push : Option (Node T) → (t : ℕ) → T → (p : ℕ) → State T → Outcome T
  start_push (some k) t d p s = went s
  start_push none t d p s = goes t (loading p) (
      write p
        (record {
          data_ = some d;
          internal_count = 0;
          next = record { external_count = 0; ptr = none };
        })
        s)

  -- A thread starts a call when it is in none.
  abbrev pub start : Place T → Outcome T → State T → Outcome T
  start (returned res) o s = o
  start (loading p) o s = went s
  start (inserting p) o s = went s
  start entering o s = went s
  start (increasing c) o s = went s
  start (holding c) o s = went s
  start (comparing e p next) o s = went s
  start (taking e p) o s = went s
  start (adding e p res) o s = went s
  start (dropping p c) o s = went s
  start (deleting p a) o s = went s

  unfoldable pub step : Op T → State T → Outcome T
  unfolding continue
  step (pushes t d p) s = start (s.places t) (start_push (s.heap p) t d p s) s
  step (pops t) s = start (s.places t) (goes t entering s) s
  step (continues w t) s = continue w (s.places t) t s

  unfoldable pub run : List (Op T) → State T → Outcome T
  unfolding step
  run [] s = went s
  run (o ∷ os) s = elim (step o s) [
    | went s' ↦ run os s'
    | overflowed ↦ overflowed
    | freed_fault ↦ freed_fault
  ]
