-- ===== src/HierarchicalMutex/Order.antt =====
-- When `lock` and `unlock` throw, in every reachable state.
use concurrency_in_action.Common.{ℕ, ◌≤◌, ◌<◌, ◌≡◌, ◌≢◌, ◌↔◌, ◌⊎◌, inl, inr, none, some, arith}
use concurrency_in_action.HierarchicalMutex.{
  ulong_max, Mutexes, start_lock, try_lock, unlock, Reach,
}
use concurrency_in_action.HierarchicalMutex.Invariant.{Reach-Inv}

module _ (hierarchy_value : ℕ → ℕ) {s : Mutexes} (r : Reach hierarchy_value s) where
  -- `t` owns a mutex whose hierarchy value is at most `v`, or below `v`.
  abbrev pub OwnsAtMost : ℕ → ℕ → Type 0
  OwnsAtMost t v = (n : ℕ) × (s.owner n ≡ some t) × (hierarchy_value n ≤ v)

  abbrev pub OwnsBelow : ℕ → ℕ → Type 0
  OwnsBelow t v = (n : ℕ) × (s.owner n ≡ some t) × (hierarchy_value n < v)

  open (Reach-Inv hierarchy_value r) use {bounded, below, grows, upper, top}

  low_value :
      (t m : ℕ)
      → s.this_thread_hierarchy_value t ≤ hierarchy_value m
      → (ulong_max ≤ hierarchy_value m) ⊎ OwnsAtMost t (hierarchy_value m)
  low_value t m le = elim (top t) [
    | inl at_top ↦ inl (omega arith)
    | inr (n, own, e) ↦ inr (n, own, omega arith)
  ]

  high_value :
      (t m : ℕ)
      → (ulong_max ≤ hierarchy_value m) ⊎ OwnsAtMost t (hierarchy_value m)
      → s.this_thread_hierarchy_value t ≤ hierarchy_value m
  high_value t m (inl big) = omega (arith, bounded t)
  high_value t m (inr (n, own, le)) = omega (arith, below t n own)

  -- `lock` and `try_lock` throw exactly when the thread owns a mutex whose hierarchy value is not
  -- above that of the mutex, or the mutex has the greatest value there is.
  pub lock-throws_iff :
      (t m : ℕ)
      → ((start_lock hierarchy_value t m s ≡ none)
          ↔ ((ulong_max ≤ hierarchy_value m) ⊎ OwnsAtMost t (hierarchy_value m)))
        × ((try_lock hierarchy_value t m s ≡ none)
            ↔ ((ulong_max ≤ hierarchy_value m) ⊎ OwnsAtMost t (hierarchy_value m)))
  unfolding start_lock try_lock
  lock-throws_iff t m = (
    (λ e. low_value t m (ground arith), λ h. ground (arith, high_value t m h)),
    (λ e. low_value t m (ground arith), λ h. ground (arith, high_value t m h)),
  )

  lowest :
      (t m : ℕ)
      → s.owner m ≡ some t
      → s.this_thread_hierarchy_value t ≢ hierarchy_value m
      → OwnsBelow t (hierarchy_value m)
  lowest t m own ne = elim (top t) [
    | inl at_top ↦ absurd (omega (arith, grows t m own, upper t m own, below t m own))
    | inr (n, owned, e) ↦ (n, owned, omega (arith, below t m own))
  ]

  -- A thread that unlocks a mutex that it owns is refused exactly when it owns one with a lower
  -- hierarchy value: the mutexes can only be unlocked in the reverse order of the hierarchy.
  pub unlock-throws_iff :
      (t m : ℕ)
      → s.owner m ≡ some t
      → (unlock hierarchy_value t m s ≡ none) ↔ OwnsBelow t (hierarchy_value m)
  unfolding unlock
  unlock-throws_iff t m own =
      (λ e. lowest t m own (ground arith), λ (n, owned, lt). ground (arith, below t n owned))

  -- A thread that owns no mutex has its initial hierarchy value again, `ULONG_MAX`, whatever it
  -- has locked and unlocked before.
  pub unowned-ulong_max :
      (t : ℕ) → ((m : ℕ) → s.owner m ≢ some t) → s.this_thread_hierarchy_value t ≡ ulong_max
  unowned-ulong_max t nothing = elim (top t) [
    | inl at_top ↦ at_top
    | inr (n, own, e) ↦ absurd (nothing n own)
  ]
