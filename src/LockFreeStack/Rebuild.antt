-- ===== src/LockFreeStack/Rebuild.antt =====
-- The invariant behind a step of one thread.
use mathlib.Core.Path.{subst}
use concurrency_in_action.Common.{
  ℕ, ◌<◌, ◌≤◌, ◌≡◌, ◌≢◌, refl, sym, ◌⊎◌, inl, Option, none, some, List, update, map, update_elim,
  update_ne, arith,
}
use concurrency_in_action.Nodes.{Node, Pointer}
use concurrency_in_action.StackModel.{Model}
use concurrency_in_action.LockFreeStack.{Place, State}
use concurrency_in_action.LockFreeStack.Count.{counted, Counts}
use concurrency_in_action.LockFreeStack.Labels.{
  Label, free, stacked, pending, IsShared, IsOf, Change,
}
use concurrency_in_action.LockFreeStack.Chains.{Seg}
use concurrency_in_action.LockFreeStack.Roles.{Has, Carries, Inv}
use concurrency_in_action.LockFreeStack.Frames.{Has-Change}

module _ {ℓ} {T : Type ℓ} (n t : ℕ) (mine : t < n) where
  above-goes :
      (places : ℕ → Place T) (p : Place T)
      → ((u : ℕ) → n ≤ u → counted (places u) ≡ 0)
      → (u : ℕ) → n ≤ u
      → counted (update places t p u) ≡ 0
  above-goes places p h u le = rw (update_ne places t u p (λ e. absurd (omega (arith, e)))) (h u le)

  -- What the step does to the labels, to the nodes, and to the two lists.
  pub rebuild :
      (m m' : Model T) (s : State T) (v : Inv n m s) (X Y : Label) (labels' : ℕ → Label)
      (heap' : ℕ → Option (Node T)) (head' to_be_deleted' : Pointer) (count' : ℕ) (to : Place T)
      (cells' pending_cells' : List (ℕ × Option T))
      → Change X Y v.labels labels' s.heap heap'
      → ((u : ℕ) → t ≢ u → IsOf u X → ⊥)
      → ((u : ℕ) → t ≢ u → m'.in_hand u ≡ m.in_hand u)
      → ((u : ℕ) → t ≢ u → counted (s.places u) ≡ 1 → IsShared X → IsShared Y × (Y ≢ stacked))
      → ((a : ℕ) → (labels' a ≡ free) ⊎ ((k : Node T) × (heap' a ≡ some k)))
      → Seg heap' labels' stacked head' cells' none
      → map (λ c. c.1) cells' ≡ m'.contents
      → Seg heap' labels' pending to_be_deleted' pending_cells' none
      → Has heap' labels' m'.in_hand t to
      → Carries (m'.in_hand t) to
      → (let s' : State T = record {
        heap = heap';
        head = head';
        threads_in_pop = count';
        to_be_deleted = to_be_deleted';
        places = update s.places t to;
      } in
          Counts n s' → Inv n m' s')
  rebuild m m' s v X Y labels' heap' head' tbd' count' to cells' pcells' c o hand stays al st co pe
        has ca cn =
      record {
        labels = labels';
        cells = cells';
        pending_cells = pcells';
        allocated = al;
        stack_chain = st;
        contents_eq = co;
        pending_chain = pe;
        threads =
            update_elim (λ u p. Has heap' labels' m'.in_hand u p) s.places t to has
              (λ u ne.
                Has-Change X Y v.labels labels' s.heap heap' m.in_hand m'.in_hand u c (o u ne)
                  (hand u ne) (s.places u) (stays u ne) (v.threads u));
        results =
            update_elim (λ u p. Carries (m'.in_hand u) p) s.places t to ca
              (λ u ne. subst (λ r. Carries r (s.places u)) (sym (hand u ne)) (v.results u));
        counts = cn;
        above = above-goes s.places to v.above;
      }

  -- A step that changes the place only, or the counter.
  pub quiet :
      (m : Model T) (s : State T) (v : Inv n m s) (count' : ℕ) (to : Place T)
      → Has s.heap v.labels m.in_hand t to
      → Carries (m.in_hand t) to
      → (let s' : State T = record s { threads_in_pop = count'; places = update s.places t to } in
          Counts n s' → Inv n m s')
  quiet m s v count' to has ca cn =
      rebuild m m s v free free v.labels s.heap s.head s.to_be_deleted count' to v.cells
        v.pending_cells (λ a. inl (refl, refl)) (λ u ne h. h) (λ u ne. refl) (λ u ne c h. absurd h)
        v.allocated v.stack_chain v.contents_eq v.pending_chain has ca cn
