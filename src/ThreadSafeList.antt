-- ===== src/ThreadSafeList.antt =====
-- chapter06_lock_based_data_structures/thread_safe_list.h: `thread_safe_list`, with a mutex in each
-- node, and any number of threads that walk the list hand over hand. A step of a thread is one
-- acquisition of a lock, or what it does from there to the next. Addresses name nodes; the head is
-- the node 0. The node that `push_front` makes is its own until it is linked, and is put on the
-- heap then.
pub mod Shape
pub mod Writes
pub mod Invariant
pub mod Threads
pub mod Accesses
pub mod Safety
pub mod Progress
mod Examples
use concurrency_in_action.Common.{
  ℕ, zero, suc, Bool, true, false, if◌then◌else◌, Option, none, some, List, [], ◌∷◌, update,
}
use concurrency_in_action.Nodes.{Node, Pointer}

-- The calls that walk the list.
pub data Job {ℓ} (T : Type ℓ) : Type ℓ where
  for_each : (T → T) → Job T
  find_first_if remove_if : (T → Bool) → Job T

-- Where a thread is: `cur` is `current`, `next` the node behind it. A thread at rest has the result
-- of its last call of `find_first_if`.
pub data Local {ℓ} (T : Type ℓ) : Type ℓ where
  resting : Option T → Local T
  pushing linking : T → Local T
  starting : Job T → Local T
  arrived : Job T → (cur : ℕ) → Local T
  waiting holding unlinked : Job T → (cur next : ℕ) → Local T
  visiting : Job T → (next : ℕ) → Local T

pub record State {ℓ} (T : Type ℓ) : Type ℓ where
  pub heap : ℕ → Option (Node T)
  pub fresh : ℕ
  -- The thread that has locked a node's mutex.
  pub locks : ℕ → Option ℕ
  pub local : ℕ → Local T

-- `blocked` is a wait for a mutex, `fault` undefined behaviour: a null pointer or a deleted node.
pub data Outcome {ℓ} (T : Type ℓ) : Type ℓ where
  went : State T → Outcome T
  blocked fault : Outcome T

module _ {ℓ} {T : Type ℓ} where
  -- The constructor.
  abbrev pub new_list : State T
  new_list = record {
    heap = update (λ a. none) 0 (some (record { data_ = none; next = none }));
    fresh = 1;
    locks = λ a. none;
    local = λ t. resting none;
  }

  abbrev pub goes : ℕ → Local T → State T → State T
  goes t l s = record s { local = update s.local t l }

  abbrev pub unlock : ℕ → State T → State T
  unlock a s = record s { locks = update s.locks a none }

  -- A lock of the mutex in a node.
  abbrev pub lock_if : Option (Node T) → Option ℕ → (t a : ℕ) → Local T → State T → Outcome T
  lock_if none holder t a l s = fault
  lock_if (some n) (some u) t a l s = blocked
  lock_if (some n) none t a l s = went (goes t l (record s { locks = update s.locks a (some t) }))

  abbrev pub lock : (t a : ℕ) → Local T → State T → Outcome T
  lock t a l s = lock_if (s.heap a) (s.locks a) t a l s

  -- `push_front`, with the lock of the head.
  abbrev pub link : Option (Node T) → (t : ℕ) → T → State T → Outcome T
  link none t v s = fault
  link (some head) t v s = went (
      goes t (resting none) (
        unlock 0 (record s {
          heap =
              update (update s.heap s.fresh (some (record { data_ = some v; next = head.next }))) 0
                (some (record head { next = some s.fresh }));
          fresh = suc s.fresh;
        })))

  -- `while (node *const next = current->next.get())`.
  abbrev pub loop_on : Pointer → Job T → (t cur : ℕ) → State T → Outcome T
  loop_on none j t cur s = went (goes t (resting none) (unlock cur s))
  loop_on (some next) j t cur s = went (goes t (waiting j cur next) s)

  abbrev pub loop_test : Option (Node T) → Job T → (t cur : ℕ) → State T → Outcome T
  loop_test none j t cur s = fault
  loop_test (some n) j t cur s = loop_on n.next j t cur s

  -- `old_next = std::move(current->next)` and `current->next = std::move(next->next)`.
  abbrev pub unlink : Job T → (t cur next : ℕ) → Node T → Node T → State T → State T
  unlink j t cur next n m s = goes t (unlinked j cur next) (record s {
    heap =
        update (update s.heap next (some (record m { next = none }))) cur
          (some (record n { next = m.next }));
  })

  -- The loop of `remove_if` with both locks: the test of the predicate, and its branches.
  abbrev pub remove_or_go :
      Option T → Option (Node T) → (T → Bool) → (t cur next : ℕ) → Node T → State T → Outcome T
  remove_or_go none n p t cur next m s = fault
  remove_or_go (some x) none p t cur next m s = fault
  remove_or_go (some x) (some n) p t cur next m s = went (
      if p x
      then unlink (remove_if p) t cur next n m s
      else goes t (arrived (remove_if p) next) (unlock cur s))

  abbrev pub remove_test : Option (Node T) → (T → Bool) → (t cur next : ℕ) → State T → Outcome T
  remove_test none p t cur next s = fault
  remove_test (some m) p t cur next s = remove_or_go m.data_ (s.heap cur) p t cur next m s

  -- The loops with both locks: `lk.unlock()`, or the body of `remove_if`.
  abbrev pub with_both : Job T → (t cur next : ℕ) → State T → Outcome T
  with_both (for_each f) t cur next s = went (goes t (visiting (for_each f) next) (unlock cur s))
  with_both (find_first_if p) t cur next s =
      went (goes t (visiting (find_first_if p) next) (unlock cur s))
  with_both (remove_if p) t cur next s = remove_test (s.heap next) p t cur next s

  -- `f(*next->data)`, or `if (p(*next->data)) return next->data`.
  abbrev pub visit_value : Option T → Job T → (t next : ℕ) → Node T → State T → Outcome T
  visit_value none j t next m s = fault
  visit_value (some x) (for_each f) t next m s = went (
      goes t (arrived (for_each f) next)
        (record s { heap = update s.heap next (some (record m { data_ = some (f x) })) }))
  visit_value (some x) (find_first_if p) t next m s = went (
      if p x
      then goes t (resting (some x)) (unlock next s)
      else goes t (arrived (find_first_if p) next) s)
  visit_value (some x) (remove_if p) t next m s = went (goes t (arrived (remove_if p) next) s)

  abbrev pub visit : Option (Node T) → Job T → (t next : ℕ) → State T → Outcome T
  visit none j t next s = fault
  visit (some m) j t next s = visit_value m.data_ j t next m s

  -- `next_l.unlock()`, and the end of the life of `old_next`.
  abbrev pub delete : Option (Node T) → Job T → (t cur next : ℕ) → State T → Outcome T
  delete none j t cur next s = fault
  delete (some m) j t cur next s =
      went (goes t (arrived j cur) (unlock next (record s { heap = update s.heap next none })))

  unfoldable pub continue : Local T → (t : ℕ) → State T → Outcome T
  continue (resting r) t s = went s
  continue (pushing v) t s = lock t 0 (linking v) s
  continue (linking v) t s = link (s.heap 0) t v s
  continue (starting j) t s = lock t 0 (arrived j 0) s
  continue (arrived j cur) t s = loop_test (s.heap cur) j t cur s
  continue (waiting j cur next) t s = lock t next (holding j cur next) s
  continue (holding j cur next) t s = with_both j t cur next s
  continue (visiting j next) t s = visit (s.heap next) j t next s
  continue (unlinked j cur next) t s = delete (s.heap next) j t cur next s

  -- A thread at rest calls an operation.
  abbrev pub call : Local T → Local T → (t : ℕ) → State T → State T
  call (resting r) l t s = goes t l s
  call (pushing v) l t s = s
  call (linking v) l t s = s
  call (starting j) l t s = s
  call (arrived j cur) l t s = s
  call (waiting j cur next) l t s = s
  call (holding j cur next) l t s = s
  call (visiting j next) l t s = s
  call (unlinked j cur next) l t s = s

-- What happens next in a run.
pub data Op {ℓ} (T : Type ℓ) : Type ℓ where
  calls_push_front : (t : ℕ) → T → Op T
  calls : (t : ℕ) → Job T → Op T
  continues : (t : ℕ) → Op T

module _ {ℓ} {T : Type ℓ} where
  unfoldable pub step : Op T → State T → Outcome T
  unfolding continue
  step (calls_push_front t v) s = went (call (s.local t) (pushing v) t s)
  step (calls t j) s = went (call (s.local t) (starting j) t s)
  step (continues t) s = continue (s.local t) t s

  abbrev pub after_step : Outcome T → State T → (State T → Outcome T) → Outcome T
  after_step (went s') s rest = rest s'
  after_step blocked s rest = rest s
  after_step fault s rest = fault

  -- A run in any order; a blocked thread stays where it is.
  unfoldable pub run : List (Op T) → State T → Outcome T
  unfolding step
  run [] s = went s
  run (o ∷ os) s = after_step (step o s) s (run os)
