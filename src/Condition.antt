-- ===== src/Condition.antt =====
-- `std::condition_variable`, as the queues use it: how many threads sleep in `wait`, and how many
-- have been woken and have still to take the mutex again and test their predicate.
use concurrency_in_action.Common.{ℕ, zero, suc, ◌+◌, ◌-◌}

pub record Condition : Type 0 where
  pub asleep : ℕ
  pub woken : ℕ

abbrev pub no_waiters : Condition
no_waiters = record { asleep = 0; woken = 0 }

abbrev wake : ℕ → Condition → Condition
wake zero c = c
wake (suc n) c = record { asleep = n; woken = c.woken + 1 }

-- It wakes one of the threads that sleep, if there is one; a spurious wake-up does the same.
unfoldable pub notify_one : Condition → Condition
notify_one c = wake c.asleep c

unfoldable pub notify_all : Condition → Condition
notify_all c = record { asleep = 0; woken = c.woken + c.asleep }

-- A thread whose predicate fails goes to sleep.
abbrev pub fall_asleep : Condition → Condition
fall_asleep c = record c { asleep = c.asleep + 1 }

-- A woken thread has the mutex again.
abbrev pub return_from_wait : Condition → Condition
return_from_wait c = record c { woken = c.woken - 1 }
