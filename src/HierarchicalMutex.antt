-- ===== src/HierarchicalMutex.antt =====
-- chapter03/hierarchical_mutex.h: the class `HierarchicalMutex`, any number of mutexes and threads.
-- Threads and mutexes are numbers. The internal `std::mutex` is its owner, if any; a thread that is
-- blocked in `internalMutex.lock()` is recorded in `waiting`.
pub mod Invariant
pub mod Order
pub mod Deadlock
mod Examples
use concurrency_in_action.Common.{
  ℕ, ◌-◌, ◌^◌, ◌≡◌, Bool, true, false, ◌==◌, leb, if◌then◌else◌, Option, none, some, update,
}

-- `ULONG_MAX`
abbrev pub ulong_max : ℕ
ulong_max = 2 ^ 64 - 1

pub record Mutexes : Type 0 where
  pub owner : ℕ → Option ℕ  -- of `internalMutex`, for each mutex
  pub previous_hierarchy_value : ℕ → ℕ  -- for each mutex
  pub this_thread_hierarchy_value : ℕ → ℕ  -- for each thread
  pub waiting : ℕ → Option ℕ  -- for each thread

abbrev pub unused : Mutexes
unused = record {
  owner = λ m. none;
  previous_hierarchy_value = λ m. 0;
  this_thread_hierarchy_value = λ t. ulong_max;
  waiting = λ t. none;
}

-- `hierarchy_value` is `hierarchyValue`, which a mutex keeps from its constructor on.
module _ (hierarchy_value : ℕ → ℕ) where
  -- `CheckForHierarchyViolation`: `true` is the exception.
  unfoldable pub violates : ℕ → ℕ → Mutexes → Bool
  violates t m s = leb (s.this_thread_hierarchy_value t) (hierarchy_value m)

  -- `UpdateHierarchyValue`, and `internalMutex` now owned by the thread.
  unfoldable pub acquire : ℕ → ℕ → Mutexes → Mutexes
  acquire t m s = record {
    owner = update s.owner m (some t);
    previous_hierarchy_value =
        update s.previous_hierarchy_value m (s.this_thread_hierarchy_value t);
    this_thread_hierarchy_value = update s.this_thread_hierarchy_value t (hierarchy_value m);
    waiting = update s.waiting t none;
  }

  -- `lock` up to the call of `internalMutex.lock()`; `none` is the exception.
  unfoldable pub start_lock : ℕ → ℕ → Mutexes → Option Mutexes
  unfolding violates
  start_lock t m s =
      if violates t m s then none else some (record s { waiting = update s.waiting t (some m) })

  -- The rest of `lock`, which goes on when the internal mutex is free.
  unfoldable pub finish_lock : ℕ → ℕ → Mutexes → Option Mutexes
  unfolding acquire
  finish_lock t m s = elim (s.owner m) [ none ↦ some (acquire t m s) | some u ↦ none ]

  -- `unlock`; `none` is the exception.
  unfoldable pub unlock : ℕ → ℕ → Mutexes → Option Mutexes
  unlock t m s =
      if s.this_thread_hierarchy_value t == hierarchy_value m
      then some (record s {
        this_thread_hierarchy_value =
            update s.this_thread_hierarchy_value t (s.previous_hierarchy_value m);
        owner = update s.owner m none;
      })
      else none

  -- `try_lock`, with its result; `none` is the exception.
  unfoldable pub try_lock : ℕ → ℕ → Mutexes → Option (Mutexes × Bool)
  unfolding violates acquire
  try_lock t m s =
      if violates t m s
      then none
      else elim (s.owner m) [ none ↦ some (acquire t m s, true) | some u ↦ some (s, false) ]

  -- A step of one thread. A call that throws changes nothing, and is no step. As `std::mutex`
  -- demands, a thread unlocks only a mutex that it owns.
  pub data Step (s : Mutexes) : Mutexes → Type 0 where
    starts : {s' : Mutexes} (t m : ℕ) → s.waiting t ≡ none → start_lock t m s ≡ some s' → Step s s'
    finishes :
        {s' : Mutexes} (t m : ℕ) → s.waiting t ≡ some m → finish_lock t m s ≡ some s' → Step s s'
    unlocks :
        {s' : Mutexes} (t m : ℕ)
        → s.waiting t ≡ none
        → s.owner m ≡ some t
        → unlock t m s ≡ some s'
        → Step s s'
    tries :
        {s' : Mutexes} {locked : Bool} (t m : ℕ)
        → s.waiting t ≡ none
        → try_lock t m s ≡ some (s', locked)
        → Step s s'

  pub data Reach : Mutexes → Type 0 where
    start : Reach unused
    later : {s s' : Mutexes} → Reach s → Step s s' → Reach s'
