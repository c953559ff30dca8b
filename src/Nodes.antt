-- ===== src/Nodes.antt =====
-- The nodes of the queues of chapters 6 and 7 (`struct node` of
-- chapter06_lock_based_data_structures/simple_queue.h and of
-- chapter07_lock_free_data_structures/lock_free_queue.h), on a heap: a family of nodes by address.
pub mod Segment
use concurrency_in_action.Common.{ℕ, Bool, true, false, ◌==◌, Option, none, some}

-- A pointer is an address, or null.
abbrev pub Pointer : Type 0
Pointer = Option ℕ

pub record Node {ℓ} (T : Type ℓ) : Type ℓ where
  pub data_ : Option T
  pub next : Pointer

abbrev pub new_node {ℓ} : {T : Type ℓ} → Node T
new_node = record { data_ = none; next = none }

-- The comparison of a pointer with the address of a node.
abbrev pub is_at : Pointer → ℕ → Bool
is_at none a = false
is_at (some b) a = b == a
