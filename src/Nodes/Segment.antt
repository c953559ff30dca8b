-- ===== src/Nodes/Segment.antt =====
-- The list that the nodes between two addresses hold, and what writes to the heap do to it.
use concurrency_in_action.Common.{
  ℕ, ◌<◌, ◌≤◌, ◌≡◌, refl, ap, ◌∙◌, Bool, true, false, Option, some, List, [], ◌∷◌, ◌++◌, arith,
  update, update_self, update_ne,
}
use concurrency_in_action.Nodes.{Node, is_at}

module _ {ℓ} {T : Type ℓ} where
  -- From the node at `a`, the nodes that follow hold `xs`; then comes the node at `e`, which is
  -- `last`. Later nodes have greater addresses.
  abbrev pub Segment : (ℕ → Option (Node T)) → ℕ → List T → ℕ → Node T → Type ℓ
  Segment heap a [] e last = (a ≡ e) × (heap e ≡ some last)
  Segment heap a (x ∷ xs) e last =
      (b : ℕ) × (heap a ≡ some (record { data_ = some x; next = some b }))
      × (a < b)
      × Segment heap b xs e last

  pub Segment-le :
      (heap : ℕ → Option (Node T)) (a : ℕ) (xs : List T) (e : ℕ) (last : Node T)
      → Segment heap a xs e last
      → a ≤ e
  Segment-le heap a [] e last (same, at) = omega arith
  Segment-le heap a (x ∷ xs) e last (b, here, lt, rest) =
      omega (arith, Segment-le heap b xs e last rest)

  -- The last node is in use.
  pub Segment-last :
      (heap : ℕ → Option (Node T)) (a : ℕ) (xs : List T) (e : ℕ) (last : Node T)
      → Segment heap a xs e last
      → heap e ≡ some last
  Segment-last heap a [] e last (same, at) = at
  Segment-last heap a (x ∷ xs) e last (b, here, lt, rest) = Segment-last heap b xs e last rest

  -- A change below the segment does not touch it,
  pub Segment-update_below :
      (heap : ℕ → Option (Node T)) (a : ℕ) (xs : List T) (e : ℕ) (last : Node T) (c : ℕ)
      (n : Option (Node T))
      → c < a
      → Segment heap a xs e last
      → Segment (update heap c n) a xs e last
  Segment-update_below heap a [] e last c n h (same, at) =
      (same, update_ne heap c e n (omega arith) ∙ at)
  Segment-update_below heap a (x ∷ xs) e last c n h (b, here, lt, rest) = (
    b,
    update_ne heap c a n (omega arith) ∙ here,
    lt,
    Segment-update_below heap b xs e last c n (omega arith) rest,
  )

  -- nor does one above it.
  pub Segment-update_above :
      (heap : ℕ → Option (Node T)) (a : ℕ) (xs : List T) (e : ℕ) (last : Node T) (c : ℕ)
      (n : Option (Node T))
      → e < c
      → Segment heap a xs e last
      → Segment (update heap c n) a xs e last
  Segment-update_above heap a [] e last c n h (same, at) =
      (same, update_ne heap c e n (omega arith) ∙ at)
  Segment-update_above heap a (x ∷ xs) e last c n h (b, here, lt, rest) = (
    b,
    update_ne heap c a n (omega (arith, Segment-le heap b xs e last rest)) ∙ here,
    lt,
    Segment-update_above heap b xs e last c n h rest,
  )

  -- A write to the last node.
  pub Segment-update_last :
      (heap : ℕ → Option (Node T)) (a : ℕ) (xs : List T) (e : ℕ) (last new : Node T)
      → Segment heap a xs e last
      → Segment (update heap e (some new)) a xs e new
  Segment-update_last heap a [] e last new (same, at) = (same, update_self heap e (some new))
  Segment-update_last heap a (x ∷ xs) e last new (b, here, lt, rest) = (
    b,
    update_ne heap e a (some new) (omega (arith, Segment-le heap b xs e last rest)) ∙ here,
    lt,
    Segment-update_last heap b xs e last new rest,
  )

  -- The last node, once it has a value and a successor, is one of the others.
  pub Segment-extended :
      (heap : ℕ → Option (Node T)) (a : ℕ) (xs : List T) (e p : ℕ) (v : T) (last : Node T)
      → e < p
      → heap p ≡ some last
      → Segment heap a xs e (record { data_ = some v; next = some p })
      → Segment heap a (xs ++ (v ∷ [])) p last
  Segment-extended heap a [] e p v last h end (same, at) =
      (p, ap heap same ∙ at, omega arith, (refl, end))
  Segment-extended heap a (x ∷ xs) e p v last h end (b, here, lt, rest) =
      (b, here, lt, Segment-extended heap b xs e p v last h end rest)

abbrev pub is_empty {ℓ} : {T : Type ℓ} → List T → Bool
is_empty [] = true
is_empty (x ∷ xs) = false

-- The test of `head` against `tail` tells whether the list is empty.
pub is_at-Segment {ℓ} :
    {T : Type ℓ} (heap : ℕ → Option (Node T)) (a : ℕ) (xs : List T) (e : ℕ) (last : Node T)
    → Segment heap a xs e last
    → is_at (some a) e ≡ is_empty xs
is_at-Segment heap a [] e last (same, at) = ground arith
is_at-Segment heap a (x ∷ xs) e last (b, here, lt, rest) =
    ground (arith, Segment-le heap b xs e last rest)
