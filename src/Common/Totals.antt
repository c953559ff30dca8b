-- ===== src/Common/Totals.antt =====
-- Weighted sums over the first indices of a family.
use Prim.Native.Nat.{ℕ, zero, suc, ◌+◌, ◌<◌, ◌≤◌}
use mathlib.Core.Path.{◌≡◌, refl}
use mathlib.Core.Logic.{◌≢◌}
use native.Mathlib.Decide.{ℕ_discrete}
use native.Mathlib.Omega.{arith}
use concurrency_in_action.Common.Tests.{update, update_self, update_ne}

module _ {ℓ} {A : Type ℓ} (w : A → ℕ) where
  abbrev pub total_below : ℕ → (ℕ → A) → ℕ
  total_below zero f = 0
  total_below (suc n) f = w (f n) + total_below n f

  total_below-update_above :
      (n i : ℕ) (f : ℕ → A) (a : A) → n < suc i → total_below n (update f i a) ≡ total_below n f
  total_below-update_above zero i f a h = refl
  total_below-update_above (suc n) i f a h =
      rw
        (
          update_ne f i n a (λ e. absurd (omega (arith, e))),
          total_below-update_above n i f a (omega arith),
        )
        refl

  pub total_below-update :
      (n i : ℕ) (f : ℕ → A) (a : A)
      → i < n
      → total_below n (update f i a) + w (f i) ≡ total_below n f + w a
  total_below-update zero i f a h = absurd (omega arith)
  total_below-update (suc n) i f a h = elim (ℕ_discrete i n) [
    | yes e ↦
        rw (← e, update_self f i a, total_below-update_above i i f a (omega arith)) (omega arith)
    | no ne ↦
        let rest = total_below-update n i f a (omega arith) in
        rw (update_ne f i n a ne) (omega arith)
  ]

  pub le-total_below : (n i : ℕ) (f : ℕ → A) → i < n → w (f i) ≤ total_below n f
  le-total_below zero i f h = absurd (omega arith)
  le-total_below (suc n) i f h = elim (ℕ_discrete i n) [
    | yes e ↦ rw e (omega arith)
    | no ne ↦ let rest = le-total_below n i f (omega (arith, ne)) in omega arith
  ]

  pub two-le-total_below :
      (n i j : ℕ) (f : ℕ → A) → i < n → j < n → i ≢ j → w (f i) + w (f j) ≤ total_below n f
  two-le-total_below zero i j f h k ne = absurd (omega arith)
  two-le-total_below (suc n) i j f h k ne = elim (ℕ_discrete i n) [
    | yes e ↦ let one = le-total_below n j f (omega (arith, ne)) in rw e (omega arith)
    | no ne_i ↦ elim (ℕ_discrete j n) [
      | yes e ↦ let one = le-total_below n i f (omega (arith, ne_i)) in rw e (omega arith)
      | no ne_j ↦
          let rest = two-le-total_below n i j f (omega (arith, ne_i)) (omega (arith, ne_j)) ne in
          omega arith
    ]
  ]

  pub total_below-le : ((a : A) → w a ≤ 1) → (n : ℕ) (f : ℕ → A) → total_below n f ≤ n
  total_below-le small zero f = omega arith
  total_below-le small (suc n) f =
      let rest = total_below-le small n f in let one = small (f n) in omega arith
