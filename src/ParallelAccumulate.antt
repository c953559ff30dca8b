-- ===== src/ParallelAccumulate.antt =====
-- chapter02/examples.cpp: `AccumulateBlock` and `parallelAccumulate`, for a container read as a list.
-- Each thread writes its own element of `results`, and all are joined before the last loop, so the
-- order in which they run does not matter. `none` is undefined behaviour: a division by zero, or an
-- iterator advanced past the end.
pub mod Laws
mod Examples
use concurrency_in_action.Common.{
  ℕ, zero, suc, ◌+◌, ◌-◌, ◌/◌, ◌%◌, ◌^◌, ◌≡◌, Bool, true, false, ◌==◌, ltb, if◌then◌else◌, Option,
  none, some, List, [], ◌∷◌, ◌>>=◌, length, map,
}

-- What the elements offer: `T()`, and the `+` of `std::accumulate`.
pub record Addition {ℓ} (T : Type ℓ) : Type ℓ where
  pub value_initialized : T
  pub plus : T → T → T

-- `unsigned long` has 64 bits.
abbrev pub min_per_thread : ℕ
min_per_thread = 25

unfoldable pub max_threads : ℕ → ℕ
max_threads length_ = ((length_ + min_per_thread - 1) % 2 ^ 64) / min_per_thread

abbrev pub min : ℕ → ℕ → ℕ
min a b = if ltb b a then b else a

unfoldable pub num_threads : ℕ → ℕ → ℕ
unfolding max_threads
num_threads hardware_threads length_ =
    min (if hardware_threads == 0 then 2 else hardware_threads) (max_threads length_)

module _ {ℓ} {T : Type ℓ} where
  -- `std::advance` by `n`: what is passed, and what is left.
  abbrev pub advance : ℕ → List T → Option (List T × List T)
  advance zero rest = some ([], rest)
  advance (suc n) [] = none
  advance (suc n) (x ∷ rest) = do (passed, left) ← advance n rest; some (x ∷ passed, left)

  -- The loop that starts the threads, with `n` of them to start: their blocks, then the main thread's.
  unfoldable pub blocks_from : ℕ → ℕ → List T → Option (List (List T))
  blocks_from zero block_size block_start = some (block_start ∷ [])
  blocks_from (suc n) block_size block_start = do
    (block, block_end) ← advance block_size block_start
    blocks ← blocks_from n block_size block_end
    some (block ∷ blocks)

module _ {ℓ} {T : Type ℓ} (addition : Addition T) where
  open addition use {value_initialized, plus}

  -- `std::accumulate`.
  abbrev pub accumulate : List T → T → T
  accumulate [] init = init
  accumulate (x ∷ rest) init = accumulate rest (plus init x)

  abbrev pub accumulate_block : List T → T
  accumulate_block block = accumulate block value_initialized

  unfoldable pub parallel_accumulate : ℕ → List T → T → Option T
  unfolding num_threads blocks_from
  parallel_accumulate hardware_threads xs init =
      let n = num_threads hardware_threads (length xs) in
      if length xs == 0 then some init else if n == 0 then none else do
        blocks ← blocks_from (n - 1) (length xs / n) xs
        some (accumulate (map accumulate_block blocks) init)
