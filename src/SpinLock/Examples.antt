-- ===== src/SpinLock/Examples.antt =====
-- Two threads at one lock.
use concurrency_in_action.Common.{ℕ, ◌≡◌, arith, ◌≢◌, refl}
use concurrency_in_action.SpinLock.{
  inside, Lock, lock_round, unlock, calls, spins, unlocks, Reach, start, later,
}
use concurrency_in_action.SpinLock.Exclusion.{mutual_exclusion, lock_round-inside}

-- Thread 0 inside, thread 1 in the loop.
contended : (s : Lock) × Reach s × (s.place 0 ≡ inside)
unfolding lock_round
contended = (_, later (later (later start (calls 0 refl)) (calls 1 refl)) (spins 0 refl), refl)

mutual_exclusion_example : ◌≡◌ {A = ℕ} 0 0
mutual_exclusion_example = mutual_exclusion contended.1 0 0 contended.2 contended.2

-- After thread 0 has left, with thread 1 in the loop.
left : (s : Lock) × Reach s × ((t : ℕ) → s.place t ≢ inside)
unfolding lock_round unlock
left = (
  _,
  later (later (later (later start (calls 0 refl)) (calls 1 refl)) (spins 0 refl)) (unlocks 0 refl),
  λ t. ground arith,
)

lock_round-inside_example : (lock_round 1 left.0).place 1 ≡ inside
lock_round-inside_example = lock_round-inside left.1 left.2 1
