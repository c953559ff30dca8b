-- ===== src/SpinLock.antt =====
-- chapter05/spin_lock.h: `spinlock_mutex`, any number of threads in any order. Each access of the
-- atomic flag is one step. As for every mutex, only the thread that has it unlocks it.
pub mod Exclusion
mod Examples
use concurrency_in_action.Common.{ℕ, ◌≡◌, Bool, true, false, if◌then◌else◌, update}

-- Where a thread stands: outside, in the loop of `lock`, or between `lock` and `unlock`.
pub data Place : Type 0 where
  outside locking inside : Place

pub record Lock : Type 0 where
  pub flag : Bool
  pub place : ℕ → Place

-- The constructor clears the flag.
abbrev pub new_lock : Lock
new_lock = record { flag = false; place = λ t. outside }

-- One round of `while (flag.test_and_set())`.
unfoldable pub lock_round : ℕ → Lock → Lock
lock_round t s =
    if s.flag
    then record s { flag = true }
    else record { flag = true; place = update s.place t inside }

-- `flag.clear()`
unfoldable pub unlock : ℕ → Lock → Lock
unlock t s = record { flag = false; place = update s.place t outside }

pub data Step (s : Lock) : Lock → Type 0 where
  calls : (t : ℕ) → s.place t ≡ outside → Step s (record s { place = update s.place t locking })
  spins : (t : ℕ) → s.place t ≡ locking → Step s (lock_round t s)
  unlocks : (t : ℕ) → s.place t ≡ inside → Step s (unlock t s)

pub data Reach : Lock → Type 0 where
  start : Reach new_lock
  later : {s s' : Lock} → Reach s → Step s s' → Reach s'
