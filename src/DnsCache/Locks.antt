-- ===== src/DnsCache/Locks.antt =====
-- A writer excludes the readers and the other writers.
use mathlib.Core.Path.{subst}
use mathlib.Core.Option.{none-ne-some, some-injective}
use concurrency_in_action.Common.{
  ℕ, ◌≡◌, ◌≢◌, refl, sym, ◌∙◌, ◌⊎◌, inl, inr, Bool, ◌==◌, ==_iff, Bool-cases, Option, none, some,
  List, [], ◌∷◌, update, update_elim,
}
use concurrency_in_action.DnsCache.{
  Place, idle, assigned, finding, reading, found, updating, inserting, assigning, State, Op, finds,
  updates, continues, release, lock_shared, lock, continue, start, step,
}

-- What a thread at a place has of the mutex.
pub data Mode : Type 0 where
  free shares owns : Mode

abbrev pub mode {ℓ} : {D V : Type ℓ} → Place D V → Mode
mode idle = free
mode (finding d) = free
mode (reading d) = shares
mode (found d v) = shares
mode (updating d v) = free
mode (inserting d v) = owns
mode (assigning d v) = owns
mode assigned = owns

abbrev pub IsIn : ℕ → List ℕ → Type 0
IsIn t [] = ⊥
IsIn t (u ∷ us) = (t ≡ u) ⊎ IsIn t us

abbrev pub Has : List ℕ → Option ℕ → ℕ → Mode → Type 0
Has readers writer t free = Unit
Has readers writer t shares = IsIn t readers × (writer ≡ none)
Has readers writer t owns = (writer ≡ some t) × (readers ≡ [])

abbrev pub Inv {ℓ} : {D V : Type ℓ} → State D V → Type 0
Inv s = (t : ℕ) → Has s.readers s.writer t (mode (s.places t))

release-IsIn : (t u : ℕ) (readers : List ℕ) → t ≢ u → IsIn u readers → IsIn u (release t readers)
release-IsIn t u [] ne h = h
release-IsIn t u (r ∷ rs) ne (inl e) = elim (Bool-cases (t == r)) [
  | inl same ↦ absurd (ne ((==_iff t r).0 same ∙ sym e))
  | inr differ ↦ rw differ (inl e)
]
release-IsIn t u (r ∷ rs) ne (inr h) = elim (Bool-cases (t == r)) [
  | inl same ↦ rw same h
  | inr differ ↦ rw differ (inr (release-IsIn t u rs ne h))
]

-- What `u` has stays when another thread takes or lets go the mutex.
shared-Has :
    (t u : ℕ) (m : Mode) (readers : List ℕ) → Has readers none u m → Has (t ∷ readers) none u m
shared-Has t u free readers h = h
shared-Has t u shares readers (is_in, e) = (inr is_in, e)
shared-Has t u owns readers (e, empty) = absurd (none-ne-some u e)

released-Has :
    (t u : ℕ) (m : Mode) (readers : List ℕ)
    → t ≢ u
    → IsIn t readers
    → Has readers none u m
    → Has (release t readers) none u m
released-Has t u free readers ne mine h = h
released-Has t u shares readers ne mine (is_in, e) = (release-IsIn t u readers ne is_in, e)
released-Has t u owns readers ne mine (e, empty) = absurd (none-ne-some u e)

taken-Has : (t u : ℕ) (m : Mode) → Has [] none u m → Has [] (some t) u m
taken-Has t u free h = h
taken-Has t u shares h = absurd h.0
taken-Has t u owns h = absurd (none-ne-some u h.0)

freed-Has : (t u : ℕ) (m : Mode) → t ≢ u → Has [] (some t) u m → Has [] none u m
freed-Has t u free ne h = h
freed-Has t u shares ne h = absurd h.0
freed-Has t u owns ne h = absurd (ne (some-injective t u h.0))

module _ {ℓ} {D V : Type ℓ} (equal : D → D → Bool) (default_entry : V) where
  -- Thread `t` goes to `p`, with the mutex that the others and its place allow.
  Inv-goes :
      (places : ℕ → Place D V) (t : ℕ) (p : Place D V) (readers : List ℕ) (writer : Option ℕ)
      → Has readers writer t (mode p)
      → ((u : ℕ) → t ≢ u → Has readers writer u (mode (places u)))
      → (u : ℕ) → Has readers writer u (mode (update places t p u))
  Inv-goes places t p readers writer here others =
      update_elim (λ u q. Has readers writer u (mode q)) places t p here others

  lock_shared-Inv :
      (m : Option ℕ) (t : ℕ) (d : D) (s : State D V)
      → s.writer ≡ m
      → Inv s
      → Inv (lock_shared equal default_entry m t d s)
  lock_shared-Inv none t d s e inv =
      Inv-goes s.places t (reading d) (t ∷ s.readers) s.writer (inl refl, e)
        (λ u other.
          subst (λ m. Has (t ∷ s.readers) m u (mode (s.places u))) (sym e)
            (shared-Has t u (mode (s.places u)) s.readers
              (subst (λ m. Has s.readers m u (mode (s.places u))) e (inv u))))
  lock_shared-Inv (some w) t d s e inv = inv

  lock-Inv :
      (m : Option ℕ) (readers : List ℕ) (t : ℕ) (d : D) (v : V) (s : State D V)
      → s.writer ≡ m
      → s.readers ≡ readers
      → Inv s
      → Inv (lock equal default_entry m readers t d v s)
  lock-Inv none [] t d v s e empty inv =
      Inv-goes s.places t (inserting d v) s.readers (some t) (refl, empty)
        (λ u other.
          subst (λ rs. Has rs (some t) u (mode (s.places u))) (sym empty)
            (taken-Has t u (mode (s.places u)) (rw (e, empty) at (inv u))))
  lock-Inv none (r ∷ rs) t d v s e empty inv = inv
  lock-Inv (some w) rs t d v s e empty inv = inv

  continue-Inv :
      (p : Place D V) (t : ℕ) (s : State D V)
      → Has s.readers s.writer t (mode p)
      → Inv s
      → Inv (continue equal default_entry p t s)
  unfolding continue
  continue-Inv idle t s h inv = inv
  continue-Inv (finding d) t s h inv = lock_shared-Inv s.writer t d s refl inv
  continue-Inv (reading d) t s h inv = Inv-goes s.places t _ s.readers s.writer h (λ u other. inv u)
  continue-Inv (found d v) t s (mine, e) inv =
      Inv-goes s.places t idle (release t s.readers) s.writer tt (λ u other.
        subst (λ m. Has (release t s.readers) m u (mode (s.places u))) (sym e)
          (released-Has t u (mode (s.places u)) s.readers other mine
            (subst (λ m. Has s.readers m u (mode (s.places u))) e (inv u))))
  continue-Inv (updating d v) t s h inv = lock-Inv s.writer s.readers t d v s refl refl inv
  continue-Inv (inserting d v) t s h inv =
      Inv-goes s.places t (assigning d v) s.readers s.writer h (λ u other. inv u)
  continue-Inv (assigning d v) t s h inv =
      Inv-goes s.places t assigned s.readers s.writer h (λ u other. inv u)
  continue-Inv assigned t s (e, empty) inv = Inv-goes s.places t idle s.readers none tt (λ u other.
      subst (λ rs. Has rs none u (mode (s.places u))) (sym empty)
        (freed-Has t u (mode (s.places u)) other (rw (e, empty) at (inv u))))

  start-Inv :
      (p q : Place D V) (t : ℕ) (s : State D V)
      → mode q ≡ free
      → Inv s
      → Inv (start equal default_entry p t q s)
  start-Inv idle q t s e inv = Inv-goes s.places t q s.readers s.writer (rw e tt) (λ u other. inv u)
  start-Inv (finding d) q t s e inv = inv
  start-Inv (reading d) q t s e inv = inv
  start-Inv (found d v) q t s e inv = inv
  start-Inv (updating d v) q t s e inv = inv
  start-Inv (inserting d v) q t s e inv = inv
  start-Inv (assigning d v) q t s e inv = inv
  start-Inv assigned q t s e inv = inv

  pub step-Inv : (o : Op D V) (s : State D V) → Inv s → Inv (step equal default_entry o s)
  unfolding step
  step-Inv (finds t d) s inv = start-Inv (s.places t) (finding d) t s refl inv
  step-Inv (updates t d v) s inv = start-Inv (s.places t) (updating d v) t s refl inv
  step-Inv (continues t) s inv = continue-Inv (s.places t) t s (inv t) inv
