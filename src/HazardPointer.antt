-- ===== src/HazardPointer.antt =====
-- chapter07_lock_free_data_structures/hazard_pointer.h: the table of hazard pointers, its owners, and
-- the list of what is to be reclaimed. Each step of an owner is one access to an atomic, so the
-- owners of several threads interleave. A `data_to_reclaim` is the address that it holds.
pub mod Owners
pub mod Reclaim
mod Examples
use concurrency_in_action.Common.{
  ℕ, zero, suc, ◌+◌, Bool, true, false, ◌==◌, ltb, if◌then◌else◌, Option, none, some, List, [], ◌∷◌,
  ◌++◌, update,
}

abbrev pub max_hazard_pointers : ℕ
max_hazard_pointers = 100

abbrev pub Pointer : Type 0
Pointer = Option ℕ

-- The `hp_owner` of a thread: none yet, the loop of its constructor at slot `i`, the constructor
-- that throws, a slot that it has, the destructor between its two stores.
pub data Owner : Type 0 where
  no_owner threw : Owner
  constructing owning leaving : (i : ℕ) → Owner

-- `ids` and `pointers` are the table; an id is a thread's, or none.
pub record State : Type 0 where
  pub ids : ℕ → Option ℕ
  pub pointers : ℕ → Pointer
  pub owner : ℕ → Owner

-- The table as the program starts.
abbrev pub initial : State
initial = record { ids = λ i. none; pointers = λ i. none; owner = λ t. no_owner }

abbrev pub goes : ℕ → Owner → State → State
goes t o s = record s { owner = update s.owner t o }

-- A round of the constructor's loop: `compare_exchange_strong(old_id, this_id)`.
abbrev pub claim : Option ℕ → (t i : ℕ) → State → State
claim none t i s = goes t (owning i) (record s { ids = update s.ids i (some t) })
claim (some u) t i s = goes t (constructing (suc i)) s

abbrev pub claim_if : Bool → (t i : ℕ) → State → State
claim_if true t i s = claim (s.ids i) t i s
claim_if false t i s = goes t threw s

unfoldable pub continue : Owner → (t : ℕ) → State → State
continue no_owner t s = s
continue threw t s = s
continue (constructing i) t s = claim_if (ltb i max_hazard_pointers) t i s
continue (owning i) t s = s
continue (leaving i) t s = goes t no_owner (record s { ids = update s.ids i none })

-- `thread_local static hp_owner hazard;`, at its first use.
abbrev pub start : Owner → (t : ℕ) → State → State
start no_owner t s = goes t (constructing 0) s
start threw t s = goes t (constructing 0) s
start (constructing i) t s = s
start (owning i) t s = s
start (leaving i) t s = s

-- `get_pointer().store(p)`, by the thread that has the slot.
abbrev pub store : Owner → Pointer → State → State
store no_owner p s = s
store threw p s = s
store (constructing i) p s = s
store (owning i) p s = record s { pointers = update s.pointers i p }
store (leaving i) p s = s

-- `~hp_owner`, to its first store.
abbrev pub destroy : Owner → (t : ℕ) → State → State
destroy no_owner t s = s
destroy threw t s = s
destroy (constructing i) t s = s
destroy (owning i) t s = goes t (leaving i) (record s { pointers = update s.pointers i none })
destroy (leaving i) t s = s

pub data Op : Type 0 where
  starts continues destroys : (t : ℕ) → Op
  stores : (t : ℕ) → Pointer → Op

unfoldable pub step : Op → State → State
unfolding continue
step (starts t) s = start (s.owner t) t s
step (continues t) s = continue (s.owner t) t s
step (destroys t) s = destroy (s.owner t) t s
step (stores t p) s = store (s.owner t) p s

unfoldable pub run : List Op → State → State
unfolding step
run [] s = s
run (o ∷ os) s = run os (step o s)

abbrev pub is_pointer : Pointer → ℕ → Bool
is_pointer none p = false
is_pointer (some a) p = a == p

-- `outstanding_hazard_pointers_for(p)`, from slot `i` on, with `n` slots to go.
unfoldable pub outstanding_from : ℕ → ℕ → (ℕ → Pointer) → ℕ → Bool
outstanding_from zero i pointers p = false
outstanding_from (suc n) i pointers p =
    if is_pointer (pointers i) p then true else outstanding_from n (suc i) pointers p

unfoldable pub outstanding_hazard_pointers_for : (ℕ → Pointer) → ℕ → Bool
unfolding outstanding_from
outstanding_hazard_pointers_for pointers p = outstanding_from max_hazard_pointers 0 pointers p

-- The list of `nodes_to_reclaim`, what this thread has deleted, and what other threads have claimed by
-- their own `exchange`, to delete it or to add it again.
pub record Reclaiming : Type 0 where
  pub nodes_to_reclaim : List ℕ
  pub deleted : List ℕ
  pub claimed : List ℕ

-- What another thread does to the list: it adds a node, or claims the whole list.
pub data Other : Type 0 where
  adds : ℕ → Other
  claims : Other

-- What other threads do before a round of the loop below, in order; and what each slot of the table
-- points to at the moment when the round loads it.
pub record Meanwhile : Type 0 where
  pub others : List Other
  pub pointers : ℕ → Pointer

abbrev pub add_to_reclaim_list : ℕ → Reclaiming → Reclaiming
add_to_reclaim_list node r = record r { nodes_to_reclaim = node ∷ r.nodes_to_reclaim }

abbrev pub other_step : Other → Reclaiming → Reclaiming
other_step (adds a) r = add_to_reclaim_list a r
other_step claims r = record r { nodes_to_reclaim = []; claimed = r.nodes_to_reclaim ++ r.claimed }

abbrev pub join_in : List Other → Reclaiming → Reclaiming
join_in [] r = r
join_in (o ∷ rest) r = join_in rest (other_step o r)

abbrev pub delete_or_keep : Bool → ℕ → Reclaiming → Reclaiming
delete_or_keep true node r = add_to_reclaim_list node r
delete_or_keep false node r = record r { deleted = node ∷ r.deleted }

-- The loop of `delete_nodes_with_no_hazards` over the nodes that it has claimed. In round `k` the
-- other threads have done `meanwhile k`.
unfoldable pub reclaim_loop : (ℕ → Meanwhile) → ℕ → List ℕ → Reclaiming → Reclaiming
unfolding outstanding_hazard_pointers_for
reclaim_loop meanwhile k [] r = r
reclaim_loop meanwhile k (current ∷ next) r = reclaim_loop meanwhile (suc k) next (
    delete_or_keep (outstanding_hazard_pointers_for (meanwhile k).pointers current) current
      (join_in (meanwhile k).others r))

-- It claims the list by `nodes_to_reclaim.exchange(nullptr)`.
unfoldable pub delete_nodes_with_no_hazards : (ℕ → Meanwhile) → Reclaiming → Reclaiming
unfolding reclaim_loop
delete_nodes_with_no_hazards meanwhile r =
    reclaim_loop meanwhile 0 r.nodes_to_reclaim (record r { nodes_to_reclaim = [] })
