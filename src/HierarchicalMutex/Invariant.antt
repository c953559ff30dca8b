-- ===== src/HierarchicalMutex/Invariant.antt =====
-- What the hierarchy values say of the mutexes that a thread owns.
use concurrency_in_action.Common.{
  ℕ, ◌≤◌, ◌<◌, ◌≡◌, ◌⊎◌, inl, inr, refl, none, some, arith, update, ◌==◌, ==_iff, Bool-cases,
  Option-cases, Ensures, Ensures-some, false,
}
use concurrency_in_action.HierarchicalMutex.{
  ulong_max, Mutexes, unused, violates, acquire, start_lock, finish_lock, unlock, try_lock, Step,
  starts, finishes, unlocks, tries, Reach, start, later,
}

module _ (hierarchy_value : ℕ → ℕ) where
  -- `t` owns a mutex of hierarchy value `v`.
  abbrev pub OwnsAt : Mutexes → ℕ → ℕ → Type 0
  OwnsAt s t v = (m : ℕ) × (s.owner m ≡ some t) × (hierarchy_value m ≡ v)

  pub record Inv (s : Mutexes) : Type 0 where
    pub bounded : (t : ℕ) → s.this_thread_hierarchy_value t ≤ ulong_max
    -- the thread's value is the least of those of its mutexes
    pub below : (t m : ℕ) → s.owner m ≡ some t → s.this_thread_hierarchy_value t ≤ hierarchy_value m
    pub waits :
        (t m : ℕ) → s.waiting t ≡ some m → hierarchy_value m < s.this_thread_hierarchy_value t
    pub grows : (t m : ℕ) → s.owner m ≡ some t → hierarchy_value m < s.previous_hierarchy_value m
    pub upper : (t m : ℕ) → s.owner m ≡ some t → s.previous_hierarchy_value m ≤ ulong_max
    -- nothing that the thread owns lies between a mutex and its previous value
    pub next :
        (t m n : ℕ)
        → s.owner m ≡ some t
        → s.owner n ≡ some t
        → hierarchy_value m < hierarchy_value n
        → s.previous_hierarchy_value m ≤ hierarchy_value n
    pub distinct :
        (t m n : ℕ)
        → s.owner m ≡ some t
        → s.owner n ≡ some t
        → hierarchy_value m ≡ hierarchy_value n
        → m ≡ n
    -- the values come from mutexes that the thread owns
    pub top :
        (t : ℕ)
        → (s.this_thread_hierarchy_value t ≡ ulong_max)
          ⊎ OwnsAt s t (s.this_thread_hierarchy_value t)
    pub link :
        (t m : ℕ)
        → s.owner m ≡ some t
        → (s.previous_hierarchy_value m ≡ ulong_max) ⊎ OwnsAt s t (s.previous_hierarchy_value m)

  Inv-unused : Inv unused
  Inv-unused = record {
    bounded = λ t. omega arith;
    below = λ t m e. cc;
    waits = λ t m e. cc;
    grows = λ t m e. cc;
    upper = λ t m e. cc;
    next = λ t m n e. cc;
    distinct = λ t m n e. cc;
    top = λ t. inl refl;
    link = λ t m e. cc;
  }

  module _ (s : Mutexes) (i : Inv s) (t m : ℕ) where
    open i use {bounded, below, waits, grows, upper, next, distinct, top, link}

    owned-acquire :
        (u v : ℕ) → s.owner m ≡ none → OwnsAt s u v → OwnsAt (acquire hierarchy_value t m s) u v
    unfolding acquire
    owned-acquire u v free (n, e, r) = (n, ground arith, r)

    top-acquire :
        (u : ℕ)
        → s.owner m ≡ none
        → let s' = acquire hierarchy_value t m s in
          (s'.this_thread_hierarchy_value u ≡ ulong_max)
          ⊎ OwnsAt s' u (s'.this_thread_hierarchy_value u)
    unfolding acquire
    top-acquire u free = elim (Bool-cases (t == u)) [
      | inl same ↦ inr (m, ground arith, ground arith)
      | inr other ↦ elim (top u) [
        | inl e ↦ inl (ground arith)
        | inr o ↦ let (n, e, r) = owned-acquire u _ free o in inr (n, e, ground arith)
      ]
    ]

    link-acquire :
        (u n : ℕ)
        → s.owner m ≡ none
        → let s' = acquire hierarchy_value t m s in
          s'.owner n ≡ some u
          → (s'.previous_hierarchy_value n ≡ ulong_max)
            ⊎ OwnsAt s' u (s'.previous_hierarchy_value n)
    unfolding acquire
    link-acquire u n free e = elim (Bool-cases (m == n)) [
      | inl same ↦ elim (top t) [
        | inl at_top ↦ inl (ground arith)
        | inr o ↦ let (k, own, r) = owned-acquire t _ free o in inr (k, ground arith, ground arith)
      ]
      | inr other ↦ elim (link u n (ground arith)) [
        | inl at_top ↦ inl (ground arith)
        | inr o ↦ let (k, own, r) = owned-acquire u _ free o in inr (k, own, ground arith)
      ]
    ]

    acquire-Inv :
        s.owner m ≡ none
        → hierarchy_value m < s.this_thread_hierarchy_value t
        → Inv (acquire hierarchy_value t m s)
    unfolding acquire
    acquire-Inv free lower = record {
      bounded = λ u. ground (arith, bounded u, bounded t);
      below = λ u n e. ground (arith, below u n);
      waits = λ u n e. ground (arith, waits u n);
      grows = λ u n e. ground (arith, grows u n);
      upper = λ u n e. ground (arith, upper u n, bounded t);
      next = λ u n k e f lt. ground (arith, next u n k, below u k, below u n);
      distinct = λ u n k e f eq. ground (arith, distinct u n k, below u k, below u n);
      top = λ u. top-acquire u free;
      link = λ u n e. link-acquire u n free e;
    }

    abbrev released : Mutexes
    released = record s {
      this_thread_hierarchy_value =
          update s.this_thread_hierarchy_value t (s.previous_hierarchy_value m);
      owner = update s.owner m none;
    }

    module _ (own : s.owner m ≡ some t)
        (least : s.this_thread_hierarchy_value t ≡ hierarchy_value m) where
      -- Nothing but the least mutex is lost, and no value leads to it from above.
      owned-released :
          (u v : ℕ) → ((u ≡ t) → hierarchy_value m < v) → OwnsAt s u v → OwnsAt released u v
      owned-released u v higher (n, e, r) = (n, ground (arith, higher), r)

      top-released :
          (u : ℕ)
          → (released.this_thread_hierarchy_value u ≡ ulong_max)
            ⊎ OwnsAt released u (released.this_thread_hierarchy_value u)
      top-released u = elim (Bool-cases (t == u)) [
        | inl same ↦ elim (link t m own) [
          | inl at_top ↦ inl (ground arith)
          | inr o ↦
              let (n, e, r) = owned-released t _ (λ _. grows t m own) o in
              inr (n, ground arith, ground arith)
        ]
        | inr other ↦ elim (top u) [
          | inl at_top ↦ inl (ground arith)
          | inr o ↦
              let (n, e, r) = owned-released u _ (λ h. absurd (ground arith)) o in
              inr (n, e, ground arith)
        ]
      ]

      link-released :
          (u n : ℕ)
          → released.owner n ≡ some u
          → (s.previous_hierarchy_value n ≡ ulong_max)
            ⊎ OwnsAt released u (s.previous_hierarchy_value n)
      link-released u n e = elim (link u n (ground arith)) [
        | inl at_top ↦ inl at_top
        | inr o ↦ inr (owned-released u _ (λ h. ground (arith, grows u n, below u n)) o)
      ]

      unlock-Inv : s.waiting t ≡ none → Inv released
      unlock-Inv awake = record {
        bounded = λ u. ground (arith, bounded u, upper t m);
        below = λ u n e. ground (arith, below u n, next t m n, distinct t m n);
        waits = λ u n e. ground (arith, waits u n);
        grows = λ u n e. ground (arith, grows u n);
        upper = λ u n e. ground (arith, upper u n);
        next = λ u n k e f lt. ground (arith, next u n k);
        distinct = λ u n k e f eq. ground (arith, distinct u n k);
        top = top-released;
        link = link-released;
      }

    start_lock-Inv :
        hierarchy_value m < s.this_thread_hierarchy_value t
        → Inv (record s { waiting = update s.waiting t (some m) })
    start_lock-Inv lower = record {
      bounded = bounded;
      below = below;
      waits = λ u n e. ground (arith, waits u n);
      grows = grows;
      upper = upper;
      next = next;
      distinct = distinct;
      top = top;
      link = link;
    }

  not_violates :
      (t m : ℕ) (s : Mutexes)
      → violates hierarchy_value t m s ≡ false
      → hierarchy_value m < s.this_thread_hierarchy_value t
  unfolding violates
  not_violates t m s e = ground arith

  start_lock-kept : (s : Mutexes) (t m : ℕ) → Inv s → Ensures Inv (start_lock hierarchy_value t m s)
  unfolding start_lock
  start_lock-kept s t m i = elim (Bool-cases (violates hierarchy_value t m s)) [
    | inl bad ↦ rw bad tt
    | inr good ↦ rw good (start_lock-Inv s i t m (not_violates t m s good))
  ]

  finish_lock-kept :
      (s : Mutexes) (t m : ℕ)
      → Inv s
      → s.waiting t ≡ some m
      → Ensures Inv (finish_lock hierarchy_value t m s)
  unfolding finish_lock
  finish_lock-kept s t m i w = elim (Option-cases (s.owner m)) [
    | inl free ↦ rw (free, finish_lock) (acquire-Inv s i t m free (i.waits t m w))
    | inr (u, taken) ↦ rw (taken, finish_lock) tt
  ]

  unlock-kept :
      (s : Mutexes) (t m : ℕ)
      → Inv s
      → s.waiting t ≡ none
      → s.owner m ≡ some t
      → Ensures Inv (unlock hierarchy_value t m s)
  unfolding unlock
  unlock-kept s t m i w own =
      elim (Bool-cases (s.this_thread_hierarchy_value t == hierarchy_value m)) [
        | inl least ↦ rw least (unlock-Inv s i t m own ((==_iff _ _).0 least) w)
        | inr other ↦ rw other tt
      ]

  try_lock-kept :
      (s : Mutexes) (t m : ℕ) → Inv s → Ensures (λ r. Inv r.0) (try_lock hierarchy_value t m s)
  unfolding try_lock
  try_lock-kept s t m i = elim (Bool-cases (violates hierarchy_value t m s)) [
    | inl bad ↦ rw bad tt
    | inr good ↦ elim (Option-cases (s.owner m)) [
      | inl free ↦ rw (good, free, try_lock) (acquire-Inv s i t m free (not_violates t m s good))
      | inr (u, taken) ↦ rw (good, taken, try_lock) i
    ]
  ]

  Step-Inv : {s s' : Mutexes} → Step hierarchy_value s s' → Inv s → Inv s'
  Step-Inv {s} (starts t m w e) i = Ensures-some Inv _ (start_lock-kept s t m i) e
  Step-Inv {s} (finishes t m w e) i = Ensures-some Inv _ (finish_lock-kept s t m i w) e
  Step-Inv {s} (unlocks t m w own e) i = Ensures-some Inv _ (unlock-kept s t m i w own) e
  Step-Inv {s} (tries t m w e) i = Ensures-some (λ r. Inv r.0) _ (try_lock-kept s t m i) e

  pub Reach-Inv : {s : Mutexes} → Reach hierarchy_value s → Inv s
  Reach-Inv start = Inv-unused
  Reach-Inv (later r st) = Step-Inv st (Reach-Inv r)
