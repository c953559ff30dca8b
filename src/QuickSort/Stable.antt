-- ===== src/QuickSort/Stable.antt =====
-- A stable partition of a list of numbers, which shows that `std::partition` can be what is promised.
use mathlib.Core.List.{Mem, Perm, perm_middle, mem-cons, not-mem-nil}
use mathlib.Core.List.Perm
use mathlib.Core.Logic.Or
use mathlib.Core.Bool.{Bool-set}
use concurrency_in_action.Common.{
  ℕ, ◌≡◌, Bool, true, false, Bool-cases, inl, inr, List, [], ◌∷◌, ◌++◌,
}
use concurrency_in_action.QuickSort.{Partition}

abbrev add_to : Bool → ℕ → List ℕ × List ℕ → List ℕ × List ℕ
add_to true x (ls, hs) = (x ∷ ls, hs)
add_to false x (ls, hs) = (ls, x ∷ hs)

abbrev split : (ℕ → Bool) → List ℕ → List ℕ × List ℕ
split p [] = ([], [])
split p (x ∷ xs) = add_to (p x) x (split p xs)

pub lower : (p : ℕ → Bool) (xs : List ℕ) (x : ℕ) → Mem x (split p xs).0 → p x ≡ true
lower p [] x m = absurd (not-mem-nil m)
lower p (y ∷ ys) x m = elim (Bool-cases (p y)) [
  | inl t ↦ Or.elim (Bool-set _ _) (mem-cons.0 (rw t at m)) (λ e. rw e t) (lower p ys x)
  | inr f ↦ lower p ys x (rw f at m)
]

pub higher : (p : ℕ → Bool) (xs : List ℕ) (x : ℕ) → Mem x (split p xs).1 → p x ≡ false
higher p [] x m = absurd (not-mem-nil m)
higher p (y ∷ ys) x m = elim (Bool-cases (p y)) [
  | inl t ↦ higher p ys x (rw t at m)
  | inr f ↦ Or.elim (Bool-set _ _) (mem-cons.0 (rw f at m)) (λ e. rw e f) (higher p ys x)
]

pub reorders : (p : ℕ → Bool) (xs : List ℕ) → Perm ((split p xs).0 ++ (split p xs).1) xs
reorders p [] = Perm.refl []
reorders p (y ∷ ys) = elim (Bool-cases (p y)) [
  | inl t ↦ rw t (Perm.cons y (reorders p ys))
  | inr f ↦
      rw f (Perm.trans (perm_middle (split p ys).0 (split p ys).1) (Perm.cons y (reorders p ys)))
]

abbrev pub stable : Partition ℕ
stable = record { divide = split; lower = lower; higher = higher; reorders = reorders }
