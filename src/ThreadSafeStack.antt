-- ===== src/ThreadSafeStack.antt =====
-- chapter03/thread_safe_stack.h: `ThreadSafeStack`. Every operation holds the mutex from its first
-- line to its last, so a run of several threads is a list of operations.
pub mod Lifo
mod Examples
use concurrency_in_action.Common.{Bool, true, false, List, [], ◌∷◌}

-- One call. `pops_to value` is `Pop(T &value)`, with what the caller's variable holds before.
pub data Call {ℓ} (T : Type ℓ) : Type ℓ where
  pushes : T → Call T
  pops : Call T
  pops_to : T → Call T
  asks_empty : Call T

-- What the caller sees. `threw` is `EmptyStack`, with the caller's variable for `pops_to`.
pub data Response {ℓ} (T : Type ℓ) : Type ℓ where
  returned : Response T
  popped : T → Response T
  assigned : T → Response T
  threw : Response T
  threw_with : T → Response T
  tested : Bool → Response T

module _ {ℓ} {T : Type ℓ} where
  -- The `std::stack`, its top first.
  abbrev pub push : T → List T → Response T × List T
  push new_value data_ = (returned, new_value ∷ data_)

  abbrev pub pop : List T → Response T × List T
  pop [] = (threw, [])
  pop (top ∷ rest) = (popped top, rest)

  abbrev pub pop_to : T → List T → Response T × List T
  pop_to value [] = (threw_with value, [])
  pop_to value (top ∷ rest) = (assigned top, rest)

  abbrev pub empty : List T → Response T × List T
  empty [] = (tested true, [])
  empty (top ∷ rest) = (tested false, top ∷ rest)

  abbrev pub call : Call T → List T → Response T × List T
  call (pushes x) data_ = push x data_
  call pops data_ = pop data_
  call (pops_to value) data_ = pop_to value data_
  call asks_empty data_ = empty data_

  -- The calls of all threads, in the order in which they take the mutex.
  unfoldable pub run : List (Call T) → List T → List (Response T) × List T
  run [] data_ = ([], data_)
  run (c ∷ cs) data_ =
      let (r, data') = call c data_ in let (rs, last) = run cs data' in (r ∷ rs, last)

  -- The copy constructor.
  abbrev pub copy : List T → List T
  copy data_ = data_
