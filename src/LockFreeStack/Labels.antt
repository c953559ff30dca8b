-- ===== src/LockFreeStack/Labels.antt =====
-- Who may use a node: a label for each address, and what a change of labels and nodes leaves alone.
use concurrency_in_action.Common.{
  ℕ, ◌≡◌, ◌≢◌, refl, sym, ap, ◌∙◌, ◌⊎◌, inl, inr, Option, update, update_elim, update_ne,
  if◌then◌else◌, ◌==◌, ==_iff, Bool-cases,
}
use concurrency_in_action.Nodes.{Node}

-- A node is in the stack, in the list of the pending nodes, or a thread's: one that it pushes, one that
-- it popped and others may still read, one that it popped and nobody reads, the pending nodes that
-- it claimed, and those of them that nobody reads. At a free address is no node.
pub data Label : Type 0 where
  free stacked pending : Label
  fresh held doomed claimed condemned : (t : ℕ) → Label

-- A thread in `pop` may read the node.
abbrev pub IsShared : Label → Type 0
IsShared free = ⊥
IsShared stacked = Unit
IsShared pending = Unit
IsShared (fresh t) = ⊥
IsShared (held t) = Unit
IsShared (doomed t) = ⊥
IsShared (claimed t) = Unit
IsShared (condemned t) = ⊥

-- The node is of thread `u`.
abbrev pub IsOf : ℕ → Label → Type 0
IsOf u free = ⊥
IsOf u stacked = ⊥
IsOf u pending = ⊥
IsOf u (fresh t) = u ≡ t
IsOf u (held t) = u ≡ t
IsOf u (doomed t) = u ≡ t
IsOf u (claimed t) = u ≡ t
IsOf u (condemned t) = u ≡ t

-- Thread `t` claims the pending nodes.
abbrev pub claim_label : ℕ → Label → Label
claim_label t free = free
claim_label t stacked = stacked
claim_label t pending = claimed t
claim_label t (fresh u) = fresh u
claim_label t (held u) = held u
claim_label t (doomed u) = doomed u
claim_label t (claimed u) = claimed u
claim_label t (condemned u) = condemned u

-- The nodes that thread `t` claimed get label `Y`.
abbrev pub release_label : ℕ → Label → Label → Label
release_label t Y free = free
release_label t Y stacked = stacked
release_label t Y pending = pending
release_label t Y (fresh u) = fresh u
release_label t Y (held u) = held u
release_label t Y (doomed u) = doomed u
release_label t Y (claimed u) = if t == u then Y else claimed u
release_label t Y (condemned u) = condemned u

pub claim_label-cases :
    (t : ℕ) (L : Label) → (claim_label t L ≡ L) ⊎ ((L ≡ pending) × (claim_label t L ≡ claimed t))
claim_label-cases t free = inl refl
claim_label-cases t stacked = inl refl
claim_label-cases t pending = inr (refl, refl)
claim_label-cases t (fresh u) = inl refl
claim_label-cases t (held u) = inl refl
claim_label-cases t (doomed u) = inl refl
claim_label-cases t (claimed u) = inl refl
claim_label-cases t (condemned u) = inl refl

pub release_label-cases :
    (t : ℕ) (Y L : Label)
    → (release_label t Y L ≡ L) ⊎ ((L ≡ claimed t) × (release_label t Y L ≡ Y))
release_label-cases t Y free = inl refl
release_label-cases t Y stacked = inl refl
release_label-cases t Y pending = inl refl
release_label-cases t Y (fresh u) = inl refl
release_label-cases t Y (held u) = inl refl
release_label-cases t Y (doomed u) = inl refl
release_label-cases t Y (condemned u) = inl refl
release_label-cases t Y (claimed u) = elim (Bool-cases (t == u)) [
  | inl e ↦ inr (ap claimed (sym ((==_iff t u).0 e)), rw e)
  | inr e ↦ inl (rw e)
]

pub release_label-claimed : (t : ℕ) (Y : Label) → release_label t Y (claimed t) ≡ Y
release_label-claimed t Y = rw ((==_iff t t).1 refl)

module _ {ℓ} {T : Type ℓ} where
  -- Only nodes with label `X` change, and they get label `Y`.
  abbrev pub Change :
      (X Y : Label) (labels labels' : ℕ → Label) (heap heap' : ℕ → Option (Node T)) → Type ℓ
  Change X Y labels labels' heap heap' =
      (a : ℕ) → ((labels' a ≡ labels a) × (heap' a ≡ heap a)) ⊎ ((labels a ≡ X) × (labels' a ≡ Y))

  pub Change-elsewhere :
      (X Y Z : Label) (labels labels' : ℕ → Label) (heap heap' : ℕ → Option (Node T)) (a : ℕ)
      → Change X Y labels labels' heap heap'
      → X ≢ Z
      → labels a ≡ Z
      → (labels' a ≡ Z) × (heap' a ≡ heap a)
  Change-elsewhere X Y Z labels labels' heap heap' a c ne e = elim (c a) [
    | inl (l, h) ↦ (l ∙ e, h)
    | inr (l, h) ↦ absurd (ne (sym l ∙ e))
  ]

  -- A change at one address.
  pub Change-at :
      (labels : ℕ → Label) (heap : ℕ → Option (Node T)) (p : ℕ) (X Y : Label) (k : Option (Node T))
      → labels p ≡ X
      → Change X Y labels (update labels p Y) heap (update heap p k)
  Change-at labels heap p X Y k e a =
      update_elim
        (λ j l. ((l ≡ labels j) × (update heap p k j ≡ heap j)) ⊎ ((labels j ≡ X) × (l ≡ Y))) labels
        p Y (inr (e, refl)) (λ j ne. inl (refl, update_ne heap p j k ne)) a

  -- A change of a label alone,
  pub Change-label :
      (labels : ℕ → Label) (heap : ℕ → Option (Node T)) (p : ℕ) (X Y : Label)
      → labels p ≡ X
      → Change X Y labels (update labels p Y) heap heap
  Change-label labels heap p X Y e a =
      update_elim (λ j l. ((l ≡ labels j) × (heap j ≡ heap j)) ⊎ ((labels j ≡ X) × (l ≡ Y))) labels
        p Y (inr (e, refl)) (λ j ne. inl (refl, refl)) a

  -- and of a node alone.
  pub Change-node :
      (labels : ℕ → Label) (heap : ℕ → Option (Node T)) (p : ℕ) (X : Label) (k : Option (Node T))
      → labels p ≡ X
      → Change X X labels labels heap (update heap p k)
  Change-node labels heap p X k e a =
      update_elim
        (λ j m. ((labels j ≡ labels j) × (m ≡ heap j)) ⊎ ((labels j ≡ X) × (labels j ≡ X))) heap p k
        (inr (e, e)) (λ j ne. inl (refl, refl)) a
