-- ===== src/RefCountStack/Labels.antt =====
-- What the counts of a node mean, for each state that it is in.
use concurrency_in_action.Common.{
  ℕ, ◌+◌, ◌-◌, ◌%◌, ◌^◌, ◌≤◌, ◌≡◌, ◌≢◌, ap, ◌∙◌, Option, none, some, List, [], ◌∷◌, ◌==◌,
  if◌then◌else◌, total_below, arith,
}
use concurrency_in_action.Nodes.{Pointer}
use concurrency_in_action.RefCountStack.{
  CountedPtr, Node, Place, returned, loading, inserting, entering, increasing, holding, comparing,
  taking, adding, dropping, deleting, int_max,
}

-- No node is at the address; a thread pushes the node; it is in the stack, with this external count;
-- a thread has taken it, with this external count; the external count is in the internal one; a thread has
-- dropped the last reference.
pub data Label : Type 0 where
  free settled : Label
  fresh doomed : (t : ℕ) → Label
  linked : (e : ℕ) → Label
  taken : (t e : ℕ) → Label

abbrev pub is_one : ℕ → ℕ → ℕ
is_one a p = if a == p then 1 else 0

abbrev pub points_to : ℕ → Pointer → ℕ
points_to a none = 0
points_to a (some p) = is_one a p

-- 1 for a thread that has increased the external count of the node at `a`, and not yet decreased the
-- internal one or taken the node.
abbrev pub refers {ℓ} : {T : Type ℓ} → ℕ → Place T → ℕ
refers a (returned res) = 0
refers a (loading p) = 0
refers a (inserting p) = 0
refers a entering = 0
refers a (increasing c) = 0
refers a (holding c) = points_to a c.ptr
refers a (comparing e p next) = is_one a p
refers a (taking e p) = 0
refers a (adding e p res) = 0
refers a (dropping p c) = is_one a p
refers a (deleting p after) = 0

abbrev pub references {ℓ} : {T : Type ℓ} → ℕ → (ℕ → Place T) → ℕ → ℕ
references n places a = total_below (refers a) n places

module _ {ℓ} {T : Type ℓ} where
  abbrev pub At : Option (Node T) → (Node T → Type ℓ) → Type ℓ
  At h P = (k : Node T) × (h ≡ some k) × P k

  -- The external count `e` is `base`, and the references, and those that were dropped; these are what the
  -- internal count is short of.
  abbrev pub IsSplit : (base e references : ℕ) → Node T → Type ℓ
  IsSplit base e c k =
      (drops : ℕ) × (e ≡ base + c + drops)
      × (k.internal_count ≡ (2 ^ 32 - drops) % 2 ^ 32)
      × (e ≤ int_max)
      × Unit {ℓ}

  -- The label, the node and the number of references to it fit.
  abbrev pub Balanced : Label → Option (Node T) → ℕ → Type ℓ
  Balanced free h c = (c ≡ 0) × Unit {ℓ}
  Balanced (fresh t) h c = At h (λ k. (k.internal_count ≡ 0) × (c ≡ 0) × Unit {ℓ})
  Balanced (linked e) h c = At h (λ k. IsSplit 1 e c k)
  Balanced (taken t e) h c = At h (λ k. IsSplit 2 e c k)
  Balanced settled h c = At h (λ k. (k.internal_count ≡ c) × (1 ≤ c) × Unit {ℓ})
  Balanced (doomed t) h c = At h (λ k. (c ≡ 0) × Unit {ℓ})

  -- A node to which a thread refers is there.
  pub Balanced-node :
      (L : Label) (h : Option (Node T)) (c : ℕ)
      → Balanced L h c
      → 1 ≤ c
      → (k : Node T) × (h ≡ some k)
  Balanced-node free h c (z, u) le = absurd (omega (arith, z))
  Balanced-node (fresh t) h c (k, at, (i, z, u)) le = absurd (omega (arith, z))
  Balanced-node (linked e) h c (k, at, b) le = (k, at)
  Balanced-node (taken t e) h c (k, at, b) le = (k, at)
  Balanced-node settled h c (k, at, b) le = (k, at)
  Balanced-node (doomed t) h c (k, at, (z, u)) le = absurd (omega (arith, z))

  abbrev pub IsOut : ℕ → List (ℕ × Option T) → Type 0
  IsOut a [] = Unit
  IsOut a ((b, d) ∷ xs) = (a ≢ b) × IsOut a xs

  -- From pointer `c` the nodes `xs`, each with its data, lead to the end of the stack.
  abbrev pub Chain : (ℕ → Option (Node T)) → (ℕ → Label) → CountedPtr → List (ℕ × Option T) → Type ℓ
  Chain heap labels c [] = (c.ptr ≡ none) × Unit {ℓ}
  Chain heap labels c ((a, d) ∷ xs) =
      (c.ptr ≡ some a)
      × (labels a ≡ linked c.external_count)
      × IsOut a xs
      × ((k : Node T) × (heap a ≡ some k) × (k.data_ ≡ d) × Chain heap labels k.next xs)

  -- A change at one address that is not in the chain.
  pub Chain-away :
      (heap heap' : ℕ → Option (Node T)) (labels labels' : ℕ → Label) (p : ℕ) (c : CountedPtr)
      (xs : List (ℕ × Option T))
      → ((a : ℕ) → p ≢ a → (labels' a ≡ labels a) × (heap' a ≡ heap a))
      → IsOut p xs
      → Chain heap labels c xs
      → Chain heap' labels' c xs
  Chain-away heap heap' labels labels' p c [] away out s = s
  Chain-away heap heap' labels labels' p c ((a, d) ∷ xs) away (ne, out)
        (at, l, o, (k, here, dat, rest)) =
      (
        at,
        (away a ne).0 ∙ l,
        o,
        (
          k,
          (away a ne).1 ∙ here,
          dat,
          Chain-away heap heap' labels labels' p k.next xs away out rest,
        ),
      )

  -- A node that is not linked is in no chain.
  pub Chain-IsOut :
      (heap : ℕ → Option (Node T)) (labels : ℕ → Label) (p : ℕ) (c : CountedPtr)
      (xs : List (ℕ × Option T))
      → ((e : ℕ) → labels p ≢ linked e)
      → Chain heap labels c xs
      → IsOut p xs
  Chain-IsOut heap labels p c [] un s = tt
  Chain-IsOut heap labels p c ((a, d) ∷ xs) un (at, l, o, (k, here, dat, rest)) = (
    λ same. un c.external_count (ap labels same ∙ l),
    Chain-IsOut heap labels p k.next xs un rest,
  )

  -- A change of one node that keeps its data and its link, and its label.
  pub Chain-counted :
      (heap heap' : ℕ → Option (Node T)) (labels : ℕ → Label) (c : CountedPtr)
      (xs : List (ℕ × Option T))
      → ((a : ℕ) (k : Node T)
          → heap a ≡ some k
          → (k' : Node T) × (heap' a ≡ some k') × (k'.data_ ≡ k.data_) × (k'.next ≡ k.next))
      → Chain heap labels c xs
      → Chain heap' labels c xs
  Chain-counted heap heap' labels c [] same s = s
  Chain-counted heap heap' labels c ((a, d) ∷ xs) same (at, l, o, (k, here, dat, rest)) =
      let (k', here', dat', link) = same a k here in
      (
        at,
        l,
        o,
        (k', here', dat' ∙ dat, rw link (Chain-counted heap heap' labels k.next xs same rest)),
      )
