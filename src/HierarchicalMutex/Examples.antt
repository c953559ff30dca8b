-- ===== src/HierarchicalMutex/Examples.antt =====
-- The mutexes of hierarchical_mutex.h, and the theorems at states that their threads reach.
use concurrency_in_action.Common.{ℕ, zero, suc, ◌≤◌, ◌≡◌, ◌↔◌, ◌⊎◌, refl, none, some, arith}
use concurrency_in_action.HierarchicalMutex.{
  ulong_max, Mutexes, unused, acquire, start_lock, try_lock, unlock, starts, tries, Reach, start,
  later,
}
use concurrency_in_action.HierarchicalMutex.Order.{
  OwnsAtMost, OwnsBelow, lock-throws_iff, unlock-throws_iff, unowned-ulong_max,
}
use concurrency_in_action.HierarchicalMutex.Deadlock.{WaitsFor, CanGoOn, no_deadlock}

-- `highLevelMutex`, `lowLevelMutex` and `otherMutex`.
abbrev values : ℕ → ℕ
values zero = 10000
values (suc zero) = 5000
values _ = 6000

-- `try_lock` of each of the mutexes by thread 0, in the order of the hierarchy.
abbrev first : Mutexes
unfolding acquire
first = acquire values 0 0 unused

abbrev both : Mutexes
unfolding acquire
both = acquire values 0 1 first

both-Reach : Reach values both
unfolding acquire try_lock
both-Reach = later (later start (tries 0 0 refl refl)) (tries 0 1 refl refl)

-- `threadB`: with `otherMutex` locked, the lock of `highLevelMutex` throws.
thread_b_throws : start_lock values 0 0 (acquire values 0 2 unused) ≡ none
unfolding start_lock acquire
thread_b_throws = refl

lock-throws_iff_example :
    ((start_lock values 0 2 both ≡ none)
      ↔ ((ulong_max ≤ 6000) ⊎ OwnsAtMost values both-Reach 0 6000))
    × ((try_lock values 0 2 both ≡ none)
        ↔ ((ulong_max ≤ 6000) ⊎ OwnsAtMost values both-Reach 0 6000))
lock-throws_iff_example = lock-throws_iff values both-Reach 0 2

unlock-throws_iff_example : (unlock values 0 0 both ≡ none) ↔ OwnsBelow values both-Reach 0 10000
unfolding acquire
unlock-throws_iff_example = unlock-throws_iff values both-Reach 0 0 refl

unowned-ulong_max_example : both.this_thread_hierarchy_value 1 ≡ ulong_max
unfolding acquire
unowned-ulong_max_example = unowned-ulong_max values both-Reach 1 (λ m e. ground arith)

-- Thread 1 waits for `lowLevelMutex`, which thread 0 owns.
contested-Reach : (s : Mutexes) × Reach values s × (s.waiting 1 ≡ some 1)
unfolding start_lock acquire
contested-Reach = (_, later both-Reach (starts 1 1 refl refl), refl)

no_deadlock_example : (u : ℕ) × WaitsFor contested-Reach.0 1 u × CanGoOn values contested-Reach.0 u
no_deadlock_example = no_deadlock values contested-Reach.1 1
