-- ===== src/SwapExamples/Locks.antt =====
-- Which locks a thread has at each place, in every state.
use mathlib.Core.Option.{none-ne-some, some-injective}
use concurrency_in_action.Common.{
  ℕ, ◌≡◌, ◌≢◌, Bool, true, false, refl, ap, sym, ◌∙◌, ◌==◌, if◌then◌else◌, Option, none, some,
  update, update_self, update_ne, update_elim, Bool-cases, inl, inr, ==_iff,
}
use concurrency_in_action.SwapExamples.{
  Place, idle, waiting, holding, leaving, swapping, half, leaving_lhs, State, Form, swap,
  swap_scoped, swap_with_unique_lock, Op, calls, continues, goes, leave, start, call_from,
  lock_both, continue, step,
}

abbrev pub owns_of : Form → Bool
owns_of swap = true
owns_of swap_scoped = true
owns_of swap_with_unique_lock = false

-- The thread at `p` has locked the mutexes of its two objects, or of its first.
abbrev pub HasBoth : (ℕ → Option ℕ) → (t lhs rhs : ℕ) → Type 0
HasBoth mutexes t lhs rhs = (mutexes lhs ≡ some t) × (mutexes rhs ≡ some t) × (lhs ≢ rhs)

abbrev pub Has {ℓ} : {V : Type ℓ} → (ℕ → Option ℕ) → ℕ → Place V → Type 0
Has mutexes t idle = Unit
Has mutexes t (waiting w l r) = l ≢ r
Has mutexes t (holding w l r) = HasBoth mutexes t l r
Has mutexes t (leaving l r) = HasBoth mutexes t l r
Has mutexes t (swapping w l r a b) = HasBoth mutexes t l r
Has mutexes t (half w l r b) = HasBoth mutexes t l r
Has mutexes t (leaving_lhs l) = mutexes l ≡ some t

-- Every thread has the locks that its place says.
abbrev pub Inv {ℓ} : {V : Type ℓ} → State V → Type 0
Inv s = (t : ℕ) → Has s.mutexes t (s.places t)

still_locked :
    (mutexes : ℕ → Option ℕ) (u o i : ℕ) (m : Option ℕ)
    → mutexes o ≢ some u
    → mutexes i ≡ some u
    → update mutexes o m i ≡ some u
still_locked mutexes u o i m free h = update_ne mutexes o i m (λ e. free (ap mutexes e ∙ h)) ∙ h

module _ {ℓ} {V : Type ℓ} where
  Has-update :
      (mutexes : ℕ → Option ℕ) (u o : ℕ) (m : Option ℕ) (p : Place V)
      → mutexes o ≢ some u
      → Has mutexes u p
      → Has (update mutexes o m) u p
  Has-update mutexes u o m idle free h = h
  Has-update mutexes u o m (waiting w l r) free h = h
  Has-update mutexes u o m (holding w l r) free (hl, hr, ne) =
      (still_locked mutexes u o l m free hl, still_locked mutexes u o r m free hr, ne)
  Has-update mutexes u o m (leaving l r) free (hl, hr, ne) =
      (still_locked mutexes u o l m free hl, still_locked mutexes u o r m free hr, ne)
  Has-update mutexes u o m (swapping w l r a b) free (hl, hr, ne) =
      (still_locked mutexes u o l m free hl, still_locked mutexes u o r m free hr, ne)
  Has-update mutexes u o m (half w l r b) free (hl, hr, ne) =
      (still_locked mutexes u o l m free hl, still_locked mutexes u o r m free hr, ne)
  Has-update mutexes u o m (leaving_lhs l) free h = still_locked mutexes u o l m free h

  -- The other threads keep their locks, and `t` has those of its new place.
  Inv-goes :
      (s : State V) (t : ℕ) (p : Place V) (mutexes : ℕ → Option ℕ)
      → ((u : ℕ) → t ≢ u → Has mutexes u (s.places u))
      → Has mutexes t p
      → (u : ℕ) → Has mutexes u (update s.places t p u)
  Inv-goes s t p mutexes others here = update_elim (λ u q. Has mutexes u q) s.places t p here others

  -- A mutex that is free or that `t` has is changed.
  Inv-others :
      (s : State V) (t o : ℕ) (m : Option ℕ) (mutexes : ℕ → Option ℕ)
      → ((u : ℕ) → t ≢ u → mutexes o ≢ some u)
      → ((u : ℕ) → t ≢ u → Has mutexes u (s.places u))
      → (u : ℕ) → t ≢ u
      → Has (update mutexes o m) u (s.places u)
  Inv-others s t o m mutexes free h u other =
      Has-update mutexes u o m (s.places u) (free u other) (h u other)

  lock_both-Inv :
      (w : Bool) (s : State V) (t l r : ℕ) (ml mr : Option ℕ)
      → Inv s
      → l ≢ r
      → s.mutexes l ≡ ml
      → s.mutexes r ≡ mr
      → Inv (lock_both w ml mr t l r s)
  lock_both-Inv w s t l r none none h ne el er =
      Inv-goes s t (holding w l r) (update once r (some t))
        (Inv-others s t r (some t) once
          (λ u other e. none-ne-some u (sym (update_ne s.mutexes l r (some t) ne ∙ er) ∙ e))
          (Inv-others s t l (some t) s.mutexes (λ u other e. none-ne-some u (sym el ∙ e))
            (λ u other. h u)))
        (
          update_ne once r l (some t) (λ e. ne (sym e)) ∙ update_self s.mutexes l (some t),
          update_self once r (some t),
          ne,
        )
    where
      once : ℕ → Option ℕ
      once = update s.mutexes l (some t)
  lock_both-Inv w s t l r none (some u) h ne el er = h
  lock_both-Inv w s t l r (some u) mr h ne el er = h

  -- The three functions begin alike, but for what their guards own.
  pub start-waits :
      (f : Form) (t l r : ℕ) (s : State V)
      → start f t l r s ≡ (if l == r then s else goes t (waiting (owns_of f) l r) s)
  start-waits swap t l r s = refl
  start-waits swap_scoped t l r s = refl
  start-waits swap_with_unique_lock t l r s = refl

  leave-Has :
      (s : State V) (w : Bool) (t l r : ℕ)
      → HasBoth s.mutexes t l r
      → Has s.mutexes t (leave {V = V} w l r)
  leave-Has s true t l r h = h
  leave-Has s false t l r h = tt

  call_from-Inv :
      (p : Place V) (f : Form) (s : State V) (t l r : ℕ) → Inv s → Inv (call_from p f t l r s)
  call_from-Inv idle f s t l r inv = elim (Bool-cases (l == r)) [
    | inl same ↦ rw (start-waits f t l r s, same) inv
    | inr differ ↦
        rw (start-waits f t l r s, differ)
          (Inv-goes s t (waiting (owns_of f) l r) s.mutexes (λ u other. inv u)
            (λ e. let same = (==_iff l r).1 e in cc))
  ]
  call_from-Inv (waiting w l' r') f s t l r inv = inv
  call_from-Inv (holding w l' r') f s t l r inv = inv
  call_from-Inv (leaving l' r') f s t l r inv = inv
  call_from-Inv (swapping w l' r' a b) f s t l r inv = inv
  call_from-Inv (half w l' r' b) f s t l r inv = inv
  call_from-Inv (leaving_lhs l') f s t l r inv = inv

  module _ (exchange : V → V → V × V) where
    continue-Inv :
        (p : Place V) (s : State V) (t : ℕ)
        → s.places t ≡ p
        → Inv s
        → Has s.mutexes t p
        → Inv (continue exchange p t s)
    unfolding continue
    continue-Inv idle s t e inv h = inv
    continue-Inv (waiting w l r) s t e inv h =
        lock_both-Inv w s t l r (s.mutexes l) (s.mutexes r) inv h refl refl
    continue-Inv (holding w l r) s t e inv h =
        let (a, b) = exchange (s.details l) (s.details r) in
        Inv-goes s t (swapping w l r a b) s.mutexes (λ u other. inv u) h
    continue-Inv (swapping w l r a b) s t e inv h =
        Inv-goes s t (half w l r b) s.mutexes (λ u other. inv u) h
    continue-Inv (half w l r b) s t e inv h =
        Inv-goes s t (leave w l r) s.mutexes (λ u other. inv u) (leave-Has s w t l r h)
    continue-Inv (leaving l r) s t e inv (hl, hr, ne) =
        Inv-goes s t (leaving_lhs l) (update s.mutexes r none)
          (Inv-others s t r none s.mutexes (λ u other e. other (some-injective t u (sym hr ∙ e)))
            (λ u other. inv u))
          (update_ne s.mutexes r l none (λ e. ne (sym e)) ∙ hl)
    continue-Inv (leaving_lhs l) s t e inv h =
        Inv-goes s t idle (update s.mutexes l none)
          (Inv-others s t l none s.mutexes (λ u other e. other (some-injective t u (sym h ∙ e)))
            (λ u other. inv u))
          tt

    pub step-Inv : (o : Op) (s : State V) → Inv s → Inv (step exchange o s)
    unfolding step
    step-Inv (calls f t l r) s inv = call_from-Inv (s.places t) f s t l r inv
    step-Inv (continues t) s inv = continue-Inv (s.places t) s t refl inv (inv t)
