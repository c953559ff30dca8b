-- ===== src/ParallelAccumulate/Laws.antt =====
-- The parallel sum is the sequential one.
use native.Mathlib.Nat.{mul-div-le}
use concurrency_in_action.Common.{
  ℕ, zero, suc, ◌+◌, ◌-◌, ◌*◌, ◌/◌, ◌^◌, ◌<◌, ◌≤◌, ◌≡◌, refl, sym, ap, ◌∙◌, false, ◌==◌,
  if◌then◌else◌, some, List, [], ◌∷◌, ◌++◌, length, map, arith,
}
use concurrency_in_action.ParallelAccumulate.{
  Addition, min, max_threads, num_threads, advance, blocks_from, accumulate, accumulate_block,
  parallel_accumulate,
}

min_bounds : (a b : ℕ) → 0 < a → 0 < b → (0 < min a b) × (min a b ≤ a) × (min a b ≤ b)
min_bounds a b ha hb = ground arith

hardware_pos : (hw : ℕ) → 0 < (if hw == 0 then 2 else hw)
hardware_pos hw = ground arith

not_zero : (n : ℕ) → 0 < n → (n == 0) ≡ false
not_zero n h = ground arith

one_less : (n k len : ℕ) → 0 < n → n * k ≤ len → (n - 1) * k ≤ len
one_less zero k len pos h = absurd (omega arith)
one_less (suc n) k len pos h = grind arith

max_threads_bounds : (n : ℕ) → 0 < n → n + 24 < 2 ^ 64 → (0 < max_threads n) × (max_threads n ≤ n)
unfolding max_threads
max_threads_bounds n h small = (omega arith, omega arith)

-- For a nonempty sequence of at most 2^64 - 25 elements there is at least one thread and no more than elements, nor than the
-- hardware runs at once (or 2 if that is not known).
pub num_threads_bounds :
    (hardware_threads n : ℕ)
    → 0 < n
    → n + 24 < 2 ^ 64
    → (0 < num_threads hardware_threads n)
      × (num_threads hardware_threads n ≤ n)
      × (num_threads hardware_threads n ≤ (if hardware_threads == 0 then 2 else hardware_threads))
unfolding num_threads
num_threads_bounds hw n h small =
    let (mpos, mle) = max_threads_bounds n h small in
    let (pos, le_hardware, le_max) =
      min_bounds (if hw == 0 then 2 else hw) (max_threads n) (hardware_pos hw) mpos in
    (pos, omega arith, le_hardware)

module _ {ℓ} {T : Type ℓ} where
  advance_succeeds :
      (n : ℕ) (xs : List T)
      → n ≤ length xs
      → (passed : List T) × (left : List T) × (advance n xs ≡ some (passed, left))
        × (passed ++ left ≡ xs)
        × (length left + n ≡ length xs)
  advance_succeeds zero xs h = ([], xs, refl, refl, omega arith)
  advance_succeeds (suc n) [] h = absurd (omega arith)
  advance_succeeds (suc n) (x ∷ xs) h =
      let (passed, left, e, joined, len) = advance_succeeds n xs (omega arith) in
      (x ∷ passed, left, rw e, ap (λ ys. x ∷ ys) joined, omega arith)

-- The `+` of the elements is associative, and `T()` is neutral on its right.
module _ {ℓ} {T : Type ℓ} (addition : Addition T)
    (plus_assoc : (a b c : T)
      → addition.plus (addition.plus a b) c ≡ addition.plus a (addition.plus b c))
    (plus_zero : (a : T) → addition.plus a addition.value_initialized ≡ a) where
  open addition use {value_initialized, plus}

  accumulate-append :
      (xs ys : List T) (r : T)
      → accumulate addition (xs ++ ys) r ≡ accumulate addition ys (accumulate addition xs r)
  accumulate-append [] ys r = refl
  accumulate-append (x ∷ xs) ys r = accumulate-append xs ys (plus r x)

  accumulate-plus :
      (xs : List T) (a b : T)
      → accumulate addition xs (plus a b) ≡ plus a (accumulate addition xs b)
  accumulate-plus [] a b = refl
  accumulate-plus (x ∷ xs) a b =
      ap (accumulate addition xs) (plus_assoc a b x) ∙ accumulate-plus xs a (plus b x)

  accumulate_from :
      (xs : List T) (r : T) → plus r (accumulate_block addition xs) ≡ accumulate addition xs r
  accumulate_from xs r =
      sym (accumulate-plus xs r value_initialized) ∙ ap (accumulate addition xs) (plus_zero r)

  -- The loop advances within the range, and the sums of the blocks add up.
  blocks_from_succeeds :
      (n size : ℕ) (xs : List T) (r : T)
      → n * size ≤ length xs
      → (blocks : List (List T)) × (blocks_from n size xs ≡ some blocks)
        × (accumulate addition (map (accumulate_block addition) blocks) r
            ≡ accumulate addition xs r)
  unfolding blocks_from
  blocks_from_succeeds zero size xs r h = (xs ∷ [], refl, accumulate_from xs r)
  blocks_from_succeeds (suc n) size xs r h =
      let (block, left, e, joined, len) = advance_succeeds size xs (omega arith) in
      let (blocks, e', sum) =
        blocks_from_succeeds n size left (plus r (accumulate_block addition block)) (omega arith) in
      (
        block ∷ blocks,
        rw (e, e'),
        sum
            ∙ ap (accumulate addition left) (accumulate_from block r)
            ∙ sym (accumulate-append block left r)
            ∙ ap (λ ys. accumulate addition ys r) joined,
      )

  -- When `+` is associative and `T()` neutral on its right, the result is that of `std::accumulate` on
  -- the whole range, on any hardware: no iterator goes past the end, for every length up to 2^64 - 25.
  pub parallel_accumulate-accumulate :
      (hardware_threads : ℕ) (xs : List T) (init : T)
      → length xs + 24 < 2 ^ 64
      → parallel_accumulate addition hardware_threads xs init ≡ some (accumulate addition xs init)
  unfolding parallel_accumulate
  parallel_accumulate-accumulate hw [] init small = refl
  parallel_accumulate-accumulate hw (x ∷ xs) init small =
      let n = num_threads hw (length (x ∷ xs)) in
      let (pos, le, le_hardware) = num_threads_bounds hw (length (x ∷ xs)) (omega arith) small in
      let (blocks, e, sum) =
        blocks_from_succeeds (n - 1) (length (x ∷ xs) / n) (x ∷ xs) init (
          one_less n (length (x ∷ xs) / n) (length (x ∷ xs)) pos
            (mul-div-le (length (x ∷ xs)) n)) in
      rw (not_zero (length (x ∷ xs)) (omega arith), not_zero n pos, e) (ap some sum)
