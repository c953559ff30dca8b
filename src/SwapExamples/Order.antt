-- ===== src/SwapExamples/Order.antt =====
-- Swaps by several threads at once are swaps one after another.
use concurrency_in_action.Common.{
  ◌++◌, ℕ, ◌==◌, if◌then◌else◌, Option, none, some, List, [], ◌∷◌, update,
}
use concurrency_in_action.SwapExamples.{
  Place, idle, waiting, holding, leaving, swapping, half, leaving_lhs, State, Op, calls, continues,
  step,
}

-- What the place of the thread that has the lock of object `o` makes of its details `d`.
abbrev pending {ℓ} : {V : Type ℓ} → Place V → ℕ → V → V
pending idle o d = d
pending (waiting w l r) o d = d
pending (holding w l r) o d = d
pending (leaving l r) o d = d
pending (swapping w l r a b) o d = if l == o then a else if r == o then b else d
pending (half w l r b) o d = if r == o then b else d
pending (leaving_lhs l) o d = d

abbrev view_at {ℓ} : {V : Type ℓ} → Option ℕ → (ℕ → Place V) → ℕ → V → V
view_at none places o d = d
view_at (some t) places o d = pending (places t) o d

-- The details as they are when the swaps that are under way are done.
abbrev view {ℓ} : {V : Type ℓ} → State V → ℕ → V
view s o = view_at (s.mutexes o) s.places o (s.details o)

module _ {ℓ} {V : Type ℓ} where
  -- The swap that the next step of a thread at this place makes.
  abbrev pub swaps_at : Place V → List (ℕ × ℕ)
  swaps_at idle = []
  swaps_at (waiting w l r) = []
  swaps_at (holding w l r) = (l, r) ∷ []
  swaps_at (leaving l r) = []
  swaps_at (swapping w l r a b) = []
  swaps_at (half w l r b) = []
  swaps_at (leaving_lhs l) = []

  abbrev pub swaps_of : Op → State V → List (ℕ × ℕ)
  swaps_of (calls f t l r) s = []
  swaps_of (continues t) s = swaps_at (s.places t)

  -- Nobody is in a call.
  abbrev pub at_rest : (ℕ → V) → State V
  at_rest details = record { details = details; mutexes = λ o. none; places = λ t. idle }

  module _ (exchange : V → V → V × V) where
    -- One swap, all at once.
    abbrev pub exchanged : (lhs rhs : ℕ) → (ℕ → V) → ℕ → V
    exchanged lhs rhs d = let (a, b) = exchange (d lhs) (d rhs) in update (update d rhs b) lhs a

    -- Swaps one after another.
    unfoldable pub replay : List (ℕ × ℕ) → (ℕ → V) → ℕ → V
    replay [] d = d
    replay ((l, r) ∷ rest) d = replay rest (exchanged l r d)

    -- The swaps of a run, in the order in which the threads begin them with both locks.
    unfoldable pub swaps : List Op → State V → List (ℕ × ℕ)
    swaps [] s = []
    swaps (o ∷ os) s = swaps_of o s ++ swaps os (step exchange o s)
