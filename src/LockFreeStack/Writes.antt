-- ===== src/LockFreeStack/Writes.antt =====
-- Steps that write to a node of the thread, relabel one, or read one.
use mathlib.Core.Path.{subst}
use concurrency_in_action.Common.{
  ℕ, ◌<◌, ◌≡◌, ◌≢◌, refl, sym, ◌∙◌, ◌⊎◌, inl, inr, Option, none, some, update, update_elim,
  update_ne,
}
use concurrency_in_action.Nodes.{Node}
use concurrency_in_action.StackModel.{Model}
use concurrency_in_action.LockFreeStack.{Place, State, Outcome, use_node}
use concurrency_in_action.LockFreeStack.Count.{counted, Counts}
use concurrency_in_action.LockFreeStack.Labels.{
  Label, free, stacked, pending, IsShared, IsOf, Change-node, Change-label, Change-at,
}
use concurrency_in_action.LockFreeStack.Chains.{Seg-Change}
use concurrency_in_action.LockFreeStack.Roles.{Has, Carries, Inv}
use concurrency_in_action.LockFreeStack.Rebuild.{rebuild}

module _ {ℓ} {T : Type ℓ} where
  -- A label that is not `free` is of a node.
  pub node_at :
      (labels : ℕ → Label) (heap : ℕ → Option (Node T)) (a : ℕ) (L : Label)
      → ((b : ℕ) → (labels b ≡ free) ⊎ ((k : Node T) × (heap b ≡ some k)))
      → labels a ≡ L
      → L ≢ free
      → (k : Node T) × (heap a ≡ some k)
  node_at labels heap a L al e ne = elim (al a) [ inl f ↦ absurd (ne (sym e ∙ f)) | inr h ↦ h ]

  pub use_node_elim :
      (P : Option (Node T) → Outcome T → Type ℓ) (next : Node T → Outcome T) (o : Option (Node T))
      (k : Node T)
      → o ≡ some k
      → P (some k) (next k)
      → P o (use_node o next)
  use_node_elim P next o k e h = subst (λ q. P q (use_node q next)) (sym e) h

  allocated_label :
      (labels : ℕ → Label) (heap : ℕ → Option (Node T)) (p : ℕ) (Y : Label) (k : Node T)
      → heap p ≡ some k
      → ((b : ℕ) → (labels b ≡ free) ⊎ ((q : Node T) × (heap b ≡ some q)))
      → (b : ℕ) → (update labels p Y b ≡ free) ⊎ ((q : Node T) × (heap b ≡ some q))
  allocated_label labels heap p Y k e al =
      update_elim (λ b l. (l ≡ free) ⊎ ((q : Node T) × (heap b ≡ some q))) labels p Y (inr (k, e))
        (λ b ne. al b)

  pub allocated_node :
      (labels : ℕ → Label) (heap : ℕ → Option (Node T)) (p : ℕ) (k : Node T)
      → ((b : ℕ) → (labels b ≡ free) ⊎ ((q : Node T) × (heap b ≡ some q)))
      → (b : ℕ) → (labels b ≡ free) ⊎ ((q : Node T) × (update heap p (some k) b ≡ some q))
  allocated_node labels heap p k al =
      update_elim (λ b m. (labels b ≡ free) ⊎ ((q : Node T) × (m ≡ some q))) heap p (some k)
        (inr (k, refl)) (λ b ne. al b)

  module _ (n t : ℕ) (mine : t < n) where
    -- A write to a node with label `X`, which is the thread's.
    pub writes :
        (m : Model T) (s : State T) (v : Inv n m s) (X : Label) (p : ℕ) (k : Node T) (to : Place T)
        → v.labels p ≡ X
        → X ≢ stacked
        → X ≢ pending
        → ((u : ℕ) → t ≢ u → IsOf u X → ⊥)
        → Has (update s.heap p (some k)) v.labels m.in_hand t to
        → Carries (m.in_hand t) to
        → (let s' : State T = record s {
          heap = update s.heap p (some k);
          places = update s.places t to;
        } in
            Counts n s' → Inv n m s')
    writes m s v X p k to e ns np o has ca cn =
        let c = Change-node v.labels s.heap p X (some k) e in
        rebuild n t mine m m s v X X v.labels (update s.heap p (some k)) s.head s.to_be_deleted
          s.threads_in_pop to v.cells v.pending_cells c o (λ u ne. refl) (λ u ne h sh. (sh, ns))
          (allocated_node v.labels s.heap p k v.allocated)
          (Seg-Change X X stacked v.labels v.labels s.heap _ s.head none v.cells c ns v.stack_chain)
          v.contents_eq
          (Seg-Change X X pending v.labels v.labels s.heap _ s.to_be_deleted none v.pending_cells c
            np v.pending_chain)
          has ca cn

    -- Another label for a node of the thread that is in no list, before or after.
    pub relabels :
        (m : Model T) (s : State T) (v : Inv n m s) (X Y : Label) (p : ℕ) (k : Node T)
        (to : Place T)
        → v.labels p ≡ X
        → s.heap p ≡ some k
        → X ≢ stacked
        → X ≢ pending
        → ((u : ℕ) → t ≢ u → IsOf u X → ⊥)
        → ((u : ℕ) → t ≢ u → counted (s.places u) ≡ 1 → IsShared X → IsShared Y × (Y ≢ stacked))
        → Has s.heap (update v.labels p Y) m.in_hand t to
        → Carries (m.in_hand t) to
        → (let s' : State T = record s { places = update s.places t to } in
            Counts n s' → Inv n m s')
    relabels m s v X Y p k to e here ns np o stays has ca cn =
        let c = Change-label v.labels s.heap p X Y e in
        rebuild n t mine m m s v X Y (update v.labels p Y) s.heap s.head s.to_be_deleted
          s.threads_in_pop to v.cells v.pending_cells c o (λ u ne. refl) stays
          (allocated_label v.labels s.heap p Y k here v.allocated)
          (Seg-Change X Y stacked v.labels _ s.heap s.heap s.head none v.cells c ns v.stack_chain)
          v.contents_eq
          (Seg-Change X Y pending v.labels _ s.heap s.heap s.to_be_deleted none v.pending_cells c np
            v.pending_chain)
          has ca cn

    -- The end of a node of the thread that nobody reads.
    pub deletes_node :
        (m : Model T) (s : State T) (v : Inv n m s) (X : Label) (p : ℕ) (to : Place T)
        → v.labels p ≡ X
        → X ≢ stacked
        → X ≢ pending
        → ((u : ℕ) → t ≢ u → IsOf u X → ⊥)
        → (IsShared X → ⊥)
        → Has (update s.heap p none) (update v.labels p free) m.in_hand t to
        → Carries (m.in_hand t) to
        → (let s' : State T = record s {
          heap = update s.heap p none;
          places = update s.places t to;
        } in
            Counts n s' → Inv n m s')
    deletes_node m s v X p to e ns np o unshared has ca cn =
        let c = Change-at v.labels s.heap p X free none e in
        rebuild n t mine m m s v X free (update v.labels p free) (update s.heap p none) s.head
          s.to_be_deleted s.threads_in_pop to v.cells v.pending_cells c o (λ u ne. refl)
          (λ u ne h sh. absurd (unshared sh)) gone
          (Seg-Change X free stacked v.labels _ s.heap _ s.head none v.cells c ns v.stack_chain)
          v.contents_eq
          (Seg-Change X free pending v.labels _ s.heap _ s.to_be_deleted none v.pending_cells c np
            v.pending_chain)
          has ca cn
      where
        gone :
            (b : ℕ)
            → (update v.labels p free b ≡ free) ⊎ ((q : Node T) × (update s.heap p none b ≡ some q))
        gone =
            update_elim (λ b l. (l ≡ free) ⊎ ((q : Node T) × (update s.heap p none b ≡ some q)))
              v.labels p free (inl refl)
              (λ b ne.
                subst (λ h. (v.labels b ≡ free) ⊎ ((q : Node T) × (h ≡ some q)))
                  (sym (update_ne s.heap p b none ne)) (v.allocated b))
