-- ===== src/QuickSort/Laws.antt =====
-- The sorts return a sorted permutation, the same one, on every input and with the fuel that they
-- are given.
use mathlib.Core.List
use mathlib.Core.List.{Mem, Perm, Pairwise, Pairwise-append, perm_middle, mem-cons}
use mathlib.Core.List.Perm
use mathlib.Core.Logic.Or
use mathlib.Core.Bool.{Bool-set}
use native.Mathlib.Bridge.{from_ℕ}
use concurrency_in_action.Common.{
  ℕ, zero, suc, ◌+◌, ◌<◌, ◌≡◌, refl, ap, sym, ◌∙◌, Bool, true, false, Option, some, List, [], ◌∷◌,
  arith, length, length-append, Bool-cases, inl, inr, ◌>>=◌,
}
use concurrency_in_action.QuickSort.{Partition, join, sequential_quick_sort, parallel_quick_sort}

length-from_ℕ {ℓ} : {A : Type ℓ} (xs : List A) → from_ℕ (List.length xs) ≡ length xs
length-from_ℕ [] = refl
length-from_ℕ (x ∷ xs) = ap suc (length-from_ℕ xs)

length-perm {ℓ} : {A : Type ℓ} {xs ys : List A} → Perm xs ys → length xs ≡ length ys
length-perm {xs} {ys} p = sym (length-from_ℕ xs) ∙ ap from_ℕ (Perm.length-eq p) ∙ length-from_ℕ ys

-- No element stands before one that is less.
abbrev pub IsSorted {ℓ} : {A : Type ℓ} → (A → A → Bool) → List A → Type ℓ
IsSorted less = Pairwise (λ a b. less b a ≡ false)

module _ {ℓ} {A : Type ℓ} (less : A → A → Bool) (partition : Partition A) where
  open partition use {divide, lower, higher, reorders}

  -- `r` is what a sort has to return for `xs`.
  abbrev pub Sorts : Option (List A) → List A → Type ℓ
  Sorts r xs = (ys : List A) × (r ≡ some ys) × Perm ys xs × IsSorted less ys

  pub parts-length :
      (p : A → Bool) (input : List A)
      → length (divide p input).0 + length (divide p input).1 ≡ length input
  parts-length p input =
      sym (length-append (divide p input).0 (divide p input).1) ∙ length-perm (reorders p input)

  module _ (irreflexive : (a : A) → less a a ≡ false)
      (transitive : (a b c : A) → less a b ≡ true → less b c ≡ true → less a c ≡ true) where
    not_before : (a b c : A) → less a c ≡ true → less b c ≡ false → less b a ≡ false
    not_before a b c p q = elim (Bool-cases (less b a)) [
      | inl bad ↦ let e = transitive b a c bad p in cc
      | inr good ↦ good
    ]

    asymmetric : (a b : A) → less a b ≡ true → less b a ≡ false
    asymmetric a b p = not_before a b b p (irreflexive b)

    join-Sorts :
        (pivot : A) (input ls hs : List A)
        → Perm ls (divide (λ t. less t pivot) input).0
        → IsSorted less ls
        → Perm hs (divide (λ t. less t pivot) input).1
        → IsSorted less hs
        → Perm (join less partition pivot ls hs) (pivot ∷ input)
          × IsSorted less (join less partition pivot ls hs)
    join-Sorts pivot input ls hs pl sl ph sh = (
      Perm.trans (perm_middle ls hs)
          (Perm.cons pivot (Perm.trans (Perm.append pl ph) (reorders (λ t. less t pivot) input))),
      (Pairwise-append (λ a b. Bool-set _ _)).1 (
        sl,
        Pairwise.cons (λ b mb. above b mb) sh,
        λ a ma b mb.
            Or.elim (Bool-set _ _) (mem-cons.0 mb) (λ e. rw e (asymmetric a pivot (under a ma)))
              (λ mb'. not_before a b pivot (under a ma) (above b mb')),
      ),
    )
      where
        under : (a : A) → Mem a ls → less a pivot ≡ true
        under a ma = lower (λ t. less t pivot) input a ((Perm.mem_iff pl).0 ma)

        above : (b : A) → Mem b hs → less b pivot ≡ false
        above b mb = higher (λ t. less t pivot) input b ((Perm.mem_iff ph).0 mb)

    sort-Sorts :
        (pivot : A) (input : List A) (first second : Option (List A))
        → Sorts first (divide (λ t. less t pivot) input).0
        → Sorts second (divide (λ t. less t pivot) input).1
        → Sorts
            (first >>= λ ls. second >>= λ hs. some (join less partition pivot ls hs))
            (pivot ∷ input)
    sort-Sorts pivot input first second (ls, el, pl, sl) (hs, eh, ph, sh) =
        let (p, s) = join-Sorts pivot input ls hs pl sl ph sh in
        (join less partition pivot ls hs, rw (el, eh), p, s)

    -- With more fuel than elements the sequential sort returns a sorted permutation of its input.
    pub sequential_quick_sort-Sorts :
        (k : ℕ) (input : List A)
        → length input < k
        → Sorts (sequential_quick_sort less partition k input) input
    unfolding sequential_quick_sort
    sequential_quick_sort-Sorts zero input h = absurd (omega arith)
    sequential_quick_sort-Sorts (suc k) [] h = ([], refl, Perm.refl [], Pairwise.nil)
    sequential_quick_sort-Sorts (suc k) (pivot ∷ input) h =
        let size = parts-length (λ t. less t pivot) input in
        sort-Sorts pivot input _ _
          (sequential_quick_sort-Sorts k (divide (λ t. less t pivot) input).0 (omega arith))
          (sequential_quick_sort-Sorts k (divide (λ t. less t pivot) input).1 (omega arith))

  -- The parallel sort returns what the sequential one returns, on every input and with any fuel.
  pub parallel_quick_sort-sequential_quick_sort :
      (k : ℕ) (input : List A)
      → parallel_quick_sort less partition k input ≡ sequential_quick_sort less partition k input
  unfolding parallel_quick_sort sequential_quick_sort
  parallel_quick_sort-sequential_quick_sort zero input = refl
  parallel_quick_sort-sequential_quick_sort (suc k) [] = refl
  parallel_quick_sort-sequential_quick_sort (suc k) (pivot ∷ input) =
      rw (parallel_quick_sort-sequential_quick_sort k (divide (λ t. less t pivot) input).0)
