-- ===== src/HierarchicalMutex/Deadlock.antt =====
-- No deadlock: the waits of the threads lead to one that can go on.
use concurrency_in_action.Common.{
  ℕ, zero, suc, ◌+◌, ◌<◌, ◌≡◌, ◌⊎◌, inl, inr, none, some, arith, Option-cases,
}
use concurrency_in_action.HierarchicalMutex.{Mutexes, acquire, finish_lock, Reach}
use concurrency_in_action.HierarchicalMutex.Invariant.{Inv, Reach-Inv}

-- `t` waits for a mutex of a thread that waits for a mutex of ... `u`.
pub data WaitsFor (s : Mutexes) : ℕ → ℕ → Type 0 where
  here : {t : ℕ} → WaitsFor s t t
  there :
      {t m u v : ℕ} → s.waiting t ≡ some m → s.owner m ≡ some u → WaitsFor s u v → WaitsFor s t v

module _ (hierarchy_value : ℕ → ℕ) where
  -- The thread does not wait, or `internalMutex.lock()` can return to it.
  abbrev pub CanGoOn : Mutexes → ℕ → Type 0
  CanGoOn s t =
      (s.waiting t ≡ none)
      ⊎ ((m : ℕ) × (s' : Mutexes) × (s.waiting t ≡ some m)
          × (finish_lock hierarchy_value t m s ≡ some s'))

  module _ (s : Mutexes) (i : Inv hierarchy_value s) where
    finish_lock-free :
        (t m : ℕ)
        → s.owner m ≡ none
        → finish_lock hierarchy_value t m s ≡ some (acquire hierarchy_value t m s)
    unfolding finish_lock
    finish_lock-free t m free = rw (free, finish_lock)

    -- The value of the mutex that is waited for falls along the waits.
    follow :
        (k t m : ℕ)
        → s.waiting t ≡ some m
        → hierarchy_value m < k
        → (u : ℕ) × WaitsFor s t u × CanGoOn s u
    follow zero t m w lt = absurd (omega arith)
    follow (suc k) t m w lt = elim (Option-cases (s.owner m)) [
      | inl free ↦ (t, here, inr (m, _, w, finish_lock-free t m free))
      | inr (u, own) ↦ elim (Option-cases (s.waiting u)) [
        | inl awake ↦ (u, there w own here, inl awake)
        | inr (n, blocked) ↦
            let (v, chain, go) =
              follow k u n blocked (omega (arith, i.below u m own, i.waits u n blocked)) in
            (v, there w own chain, go)
      ]
    ]

  -- In every reachable state, from each thread the waits lead in finitely many steps to a thread
  -- that does not wait or whose mutex is free: threads never wait for one another in a circle.
  pub no_deadlock :
      {s : Mutexes} → Reach hierarchy_value s → (t : ℕ) → (u : ℕ) × WaitsFor s t u × CanGoOn s u
  no_deadlock {s} r t = elim (Option-cases (s.waiting t)) [
    | inl awake ↦ (t, here, inl awake)
    | inr (m, w) ↦
        follow s (Reach-Inv hierarchy_value r) (hierarchy_value m + 1) t m w (omega arith)
  ]
