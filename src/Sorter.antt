-- ===== src/Sorter.antt =====
-- chapter08/paraller_quick_sort.cpp: `sorter` and `parallel_quick_sort`. `do_sort` is run by one thread
-- that starts no helpers, which is what the constructor allows on one hardware thread, with the stack
-- of chunks and the promises written out; a helper thread is modelled by a turn of its loop. A
-- promise is a number, and its future is ready once it has a value.
pub mod Alone
mod Examples
use concurrency_in_action.Common.{
  ℕ, zero, suc, ◌+◌, ◌-◌, ◌%◌, ◌^◌, Bool, true, false, ltb, Option, none, some, List, [], ◌∷◌, ◌++◌,
  length, update,
}
use concurrency_in_action.QuickSort.{Partition, join}
use concurrency_in_action.ThreadSafeStack

-- `thread::hardware_concurrency() - 1`, in 32 bits.
abbrev pub max_thread_count : ℕ → ℕ
max_thread_count hardware_threads = (hardware_threads + 2 ^ 32 - 1) % 2 ^ 32

-- Is a helper started, where this many run?
abbrev pub starts_helper : (hardware_threads threads : ℕ) → Bool
starts_helper hardware_threads threads = ltb threads (max_thread_count hardware_threads)

-- `chunk_to_sort`.
pub record Chunk {ℓ} (T : Type ℓ) : Type ℓ where
  pub data_ : List T
  pub promise : ℕ

pub record State {ℓ} (T : Type ℓ) : Type ℓ where
  pub chunks : List (Chunk T)
  pub promises : ℕ → Option (List T)
  pub fresh : ℕ

-- `threw` is `EmptyStack`, of a `Pop` of the stack.
pub data Outcome {ℓ} (T R : Type ℓ) : Type ℓ where
  returned : R → State T → Outcome T R
  threw out_of_fuel : Outcome T R

module _ {ℓ} {T : Type ℓ} where
  abbrev pub and_then : {R S : Type ℓ} → Outcome T R → (R → State T → Outcome T S) → Outcome T S
  and_then (returned r s) next = next r s
  and_then threw next = threw
  and_then out_of_fuel next = out_of_fuel

  -- `sort_chunk`: the promise gets the sorted data.
  abbrev pub sort_chunk :
      (List T → State T → Outcome T (List T)) → Chunk T → State T → Outcome T (List T)
  sort_chunk do_sort chunk s = and_then (do_sort chunk.data_ s) (λ sorted s'.
      returned sorted (record s' { promises = update s'.promises chunk.promise (some sorted) }))

  -- `try_sort_chunk`: the chunk on top, if `Pop` returns one.
  abbrev pub sort_popped :
      (List T → State T → Outcome T (List T))
      → ThreadSafeStack.Response (Chunk T) × List (Chunk T)
      → State T
      → Outcome T (List T)
  sort_popped do_sort (ThreadSafeStack.popped chunk, rest) s =
      sort_chunk do_sort chunk (record s { chunks = rest })
  sort_popped do_sort (ThreadSafeStack.threw, rest) s = threw
  sort_popped do_sort (ThreadSafeStack.returned, rest) s = threw
  sort_popped do_sort (ThreadSafeStack.assigned c, rest) s = threw
  sort_popped do_sort (ThreadSafeStack.threw_with c, rest) s = threw
  sort_popped do_sort (ThreadSafeStack.tested b, rest) s = threw

  abbrev pub try_sort_chunk : (List T → State T → Outcome T (List T)) → State T → Outcome T (List T)
  try_sort_chunk do_sort s = sort_popped do_sort (ThreadSafeStack.pop s.chunks) s

  -- `while (new_lower.wait_for(0) != ready) try_sort_chunk();` and `new_lower.get()`, with the state
  -- of the future at the test; the fuel is the rounds.
  unfoldable pub wait_for :
      ℕ → (List T → State T → Outcome T (List T)) → (promise : ℕ) → State T → Outcome T (List T)
  wait_for zero do_sort promise s = out_of_fuel
  wait_for (suc k) do_sort promise s = elim (s.promises promise) [
    | some sorted ↦ returned sorted s
    | none ↦ and_then (try_sort_chunk do_sort s) (λ sorted s'. wait_for k do_sort promise s')
  ]

  abbrev pub new_sorter : State T
  new_sorter = record { chunks = []; promises = λ i. none; fresh = 0 }

  -- `get_future` and `chunks.Push(move(new_lower_chunk))`.
  abbrev pub push_chunk : List T → State T → State T
  push_chunk lower s = record s {
    chunks = record { data_ = lower; promise = s.fresh } ∷ s.chunks;
    promises = update s.promises s.fresh none;
    fresh = suc s.fresh;
  }

module _ {ℓ} {T : Type ℓ} (less : T → T → Bool) (partition : Partition T) where
  open partition use {divide}

  unfoldable pub do_sort : ℕ → List T → State T → Outcome T (List T)
  unfolding wait_for
  do_sort zero chunk_data s = out_of_fuel
  do_sort (suc k) [] s = returned [] s
  do_sort (suc k) (partition_val ∷ rest) s =
      let (new_lower_chunk, chunk_data) = divide (λ val. less val partition_val) rest in
      and_then (do_sort k chunk_data (push_chunk new_lower_chunk s)) (λ new_higher s'.
        and_then (wait_for (suc k) (do_sort k) s.fresh s')
          (λ new_lower s''. returned (join less partition partition_val new_lower new_higher) s''))

  unfoldable pub parallel_quick_sort : ℕ → List T → Outcome T (List T)
  unfolding do_sort
  parallel_quick_sort k [] = returned [] new_sorter
  parallel_quick_sort k (x ∷ input) = do_sort k (x ∷ input) new_sorter

  -- A turn of `sort_thread`, if `end_of_data` is not set: what `Pop` throws ends the program.
  unfoldable pub sort_thread_turn : ℕ → (end_of_data : Bool) → State T → Outcome T (List T)
  unfolding do_sort
  sort_thread_turn k true s = returned [] s
  sort_thread_turn k false s = try_sort_chunk (do_sort k) s
