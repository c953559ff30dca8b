-- ===== src/RefCountStack/Destructor.antt =====
-- chapter07_lock_free_data_structures/lock_free_stack_ref_count.h: the destructor, `while (pop());`, that a
-- thread runs when no other is in a call.
use concurrency_in_action.Common.{ℕ, zero, suc, false, Option, none, some, update}
use concurrency_in_action.RefCountStack.{
  Place, returned, loading, inserting, entering, increasing, holding, comparing, taking, adding,
  dropping, deleting, State, Outcome, went, overflowed, freed_fault, goes, continue,
}

module _ {ℓ} {T : Type ℓ} where
  -- The loop ends when `pop` has returned null; a value makes it pop again.
  unfoldable pub turn : Place T → (t : ℕ) → State T → Option (Outcome T)
  unfolding continue
  turn (returned none) t s = none
  turn (returned (some d)) t s = some (goes t entering s)
  turn (loading p) t s = some (continue false (loading p) t s)
  turn (inserting p) t s = some (continue false (inserting p) t s)
  turn entering t s = some (continue false entering t s)
  turn (increasing c) t s = some (continue false (increasing c) t s)
  turn (holding c) t s = some (continue false (holding c) t s)
  turn (comparing e p next) t s = some (continue false (comparing e p next) t s)
  turn (taking e p) t s = some (continue false (taking e p) t s)
  turn (adding e p res) t s = some (continue false (adding e p res) t s)
  turn (dropping p c) t s = some (continue false (dropping p c) t s)
  turn (deleting p a) t s = some (continue false (deleting p a) t s)

  -- What follows a turn, if the loop has not ended.
  abbrev pub next_turn :
      Option (Outcome T) → State T → (State T → Option (Outcome T)) → Option (Outcome T)
  next_turn none s rest = some (went s)
  next_turn (some (went s')) s rest = rest s'
  next_turn (some overflowed) s rest = some overflowed
  next_turn (some freed_fault) s rest = some freed_fault

  -- The turns of the loop; the fuel is their number.
  unfoldable pub loop : (fuel t : ℕ) → State T → Option (Outcome T)
  unfolding turn
  loop zero t s = none
  loop (suc k) t s = next_turn (turn (s.places t) t s) s (λ s'. loop k t s')

  unfoldable pub destroy_stack : (fuel t : ℕ) → State T → Option (Outcome T)
  unfolding loop
  destroy_stack k t s = loop k t (record s { places = update s.places t entering })
