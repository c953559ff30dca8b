-- ===== src/SpinLock/Exclusion.antt =====
-- Mutual exclusion, and that the lock is free whenever nobody is inside.
use concurrency_in_action.Common.{ℕ, ◌≡◌, ◌≢◌, refl, true, Bool-cases, inl, inr, arith}
use concurrency_in_action.SpinLock.{
  inside, Lock, lock_round, unlock, Step, calls, spins, unlocks, Reach, start, later,
}

record Inv (s : Lock) : Type 0 where
  set : (t : ℕ) → s.place t ≡ inside → s.flag ≡ true
  alone : (t u : ℕ) → s.place t ≡ inside → s.place u ≡ inside → t ≡ u
  someone : s.flag ≡ true → (t : ℕ) × (s.place t ≡ inside)

Step-Inv : {s s' : Lock} → Step s s' → Inv s → Inv s'
unfolding lock_round unlock
Step-Inv {s} (calls t e) i = record {
  set = λ u h. ground (arith, i.set u);
  alone = λ u v h k. ground (arith, i.alone u v);
  someone = λ h. let (u, k) = i.someone h in (u, ground arith);
}
Step-Inv {s} (spins t e) i = elim (Bool-cases s.flag) [
  | inl taken ↦
      rw (taken, lock_round)
        (record { set = λ u h. refl; alone = i.alone; someone = λ h. i.someone taken })
  | inr free ↦
      rw (free, lock_round)
        (record {
          set = λ u h. refl;
          alone = λ u v h k. ground (arith, i.set u, i.set v);
          someone = λ h. (t, ground arith);
        })
]
Step-Inv {s} (unlocks t e) i = record {
  set = λ u h. ground (arith, i.alone u t);
  alone = λ u v h k. ground (arith, i.alone u v);
  someone = λ h. absurd (ground arith);
}

Reach-Inv : {s : Lock} → Reach s → Inv s
Reach-Inv start = record { set = λ t e. cc; alone = λ t u e f. cc; someone = λ e. cc }
Reach-Inv (later r st) = Step-Inv st (Reach-Inv r)

-- In every reachable state at most one thread is between `lock` and `unlock`.
pub mutual_exclusion :
    {s : Lock} → Reach s → (t u : ℕ) → s.place t ≡ inside → s.place u ≡ inside → t ≡ u
mutual_exclusion r = (Reach-Inv r).alone

-- In every reachable state in which no thread is between `lock` and `unlock`, the next round of the
-- loop of `lock` enters, whichever thread makes it: an unlocked lock is never left taken.
pub lock_round-inside :
    {s : Lock}
    → Reach s
    → ((t : ℕ) → s.place t ≢ inside)
    → (u : ℕ) → (lock_round u s).place u ≡ inside
unfolding lock_round
lock_round-inside {s} r empty u = elim (Bool-cases s.flag) [
  | inl taken ↦ let (t, e) = (Reach-Inv r).someone taken in absurd (empty t e)
  | inr free ↦ ground arith
]
