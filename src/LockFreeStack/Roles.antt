-- ===== src/LockFreeStack/Roles.antt =====
-- What each thread may rely on at its place, and the invariant of the stack.
use concurrency_in_action.Common.{ℕ, ◌≤◌, ◌≡◌, ◌⊎◌, Option, none, some, List, [], ◌∷◌, ◌++◌, map}
use concurrency_in_action.StackModel.{Model}
use concurrency_in_action.Nodes.{Node, Pointer}
use concurrency_in_action.LockFreeStack.{
  After, deletes, leaves, Place, returned, loading, inserting, entering, loading_head, looping,
  comparing, taking, reclaiming, claiming, counting, deleting_nodes, deleting, walking, linking,
  chaining, leaving, State,
}
use concurrency_in_action.LockFreeStack.Count.{counted, Counts}
use concurrency_in_action.LockFreeStack.Labels.{
  Label, free, stacked, pending, fresh, held, doomed, claimed, condemned, IsShared,
}
use concurrency_in_action.LockFreeStack.Chains.{Seg}

abbrev pub IsDoomed : (ℕ → Label) → ℕ → Pointer → Type 0
IsDoomed labels t none = Unit
IsDoomed labels t (some p) = labels p ≡ doomed t

abbrev pub MayFollow : (ℕ → Label) → ℕ → After → Type 0
MayFollow labels t (deletes old_head) = IsDoomed labels t old_head
MayFollow labels t leaves = Unit

module _ {ℓ} {T : Type ℓ} where
  abbrev pub At : (ℕ → Option (Node T)) → ℕ → (Node T → Type ℓ) → Type ℓ
  At heap a P = (k : Node T) × (heap a ≡ some k) × P k

  -- A node that another thread may have popped: only in the stack its link is known.
  abbrev pub Refers : Label → (ℕ → Option (Node T)) → ℕ → Pointer → Type ℓ
  Refers free heap a next = ⊥ × Unit {ℓ}
  Refers stacked heap a next = At heap a (λ k. (k.next ≡ next) × Unit {ℓ})
  Refers pending heap a next = Unit
  Refers (fresh t) heap a next = ⊥ × Unit {ℓ}
  Refers (held t) heap a next = Unit
  Refers (doomed t) heap a next = ⊥ × Unit {ℓ}
  Refers (claimed t) heap a next = Unit
  Refers (condemned t) heap a next = ⊥ × Unit {ℓ}

  -- The claimed nodes, without the rest of a list behind the last of them.
  abbrev pub Claims : (ℕ → Option (Node T)) → (ℕ → Label) → ℕ → (first last : Pointer) → Type ℓ
  Claims heap labels t first none = Unit
  Claims heap labels t first (some l) =
      (xs : List (ℕ × Option T)) × (d : Option T) × (e : Pointer) × Seg heap labels (claimed t)
        first (xs ++ ((l, d) ∷ [])) e

  abbrev pub Has : (ℕ → Option (Node T)) → (ℕ → Label) → (ℕ → Option T) → ℕ → Place T → Type ℓ
  Has heap labels in_hand t (returned res) = Unit
  Has heap labels in_hand t (loading p) =
      (labels p ≡ fresh t) × At heap p (λ k. k.data_ ≡ in_hand t)
  Has heap labels in_hand t (inserting p) =
      (labels p ≡ fresh t) × At heap p (λ k. k.data_ ≡ in_hand t)
  Has heap labels in_hand t entering = Unit
  Has heap labels in_hand t loading_head = Unit
  Has heap labels in_hand t (looping none) = Unit
  Has heap labels in_hand t (looping (some a)) = IsShared (labels a) × Unit {ℓ}
  Has heap labels in_hand t (comparing a next) = Refers (labels a) heap a next
  Has heap labels in_hand t (taking p) = (labels p ≡ held t) × At heap p (λ k. k.data_ ≡ in_hand t)
  Has heap labels in_hand t (reclaiming none res) = Unit
  Has heap labels in_hand t (reclaiming (some p) res) = (labels p ≡ held t) × Unit {ℓ}
  Has heap labels in_hand t (claiming old_head res) = IsDoomed labels t old_head × Unit {ℓ}
  Has heap labels in_hand t (counting nodes old_head res) =
      IsDoomed labels t old_head
      × ((xs : List (ℕ × Option T)) × Seg heap labels (claimed t) nodes xs none)
  Has heap labels in_hand t (deleting_nodes nodes old_head res) =
      IsDoomed labels t old_head
      × ((xs : List (ℕ × Option T)) × Seg heap labels (condemned t) nodes xs none)
  Has heap labels in_hand t (deleting old_head res) = IsDoomed labels t old_head × Unit {ℓ}
  Has heap labels in_hand t (walking first last after res) =
      MayFollow labels t after
      × ((xs : List (ℕ × Option T)) × (ys : List (ℕ × Option T)) × Seg heap labels (claimed t)
            (some first) (xs ++ ys) none
          × Seg heap labels (claimed t) (some last) ys none)
  Has heap labels in_hand t (linking first last after res) =
      MayFollow labels t after × Claims heap labels t first last
  Has heap labels in_hand t (chaining first last after res) =
      MayFollow labels t after × Claims heap labels t first last
  Has heap labels in_hand t (leaving res) = Unit

  -- What a thread is to return is what it popped, or null if it found the stack empty.
  abbrev pub Carries : Option T → Place T → Type ℓ
  Carries got (returned res) = Unit
  Carries got (loading p) = (v : T) × (got ≡ some v)
  Carries got (inserting p) = (v : T) × (got ≡ some v)
  Carries got entering = Unit
  Carries got loading_head = Unit
  Carries got (looping none) = none ≡ got
  Carries got (looping (some a)) = Unit
  Carries got (comparing a next) = Unit
  Carries got (taking p) = Unit
  Carries got (reclaiming p res) = res ≡ got
  Carries got (claiming p res) = res ≡ got
  Carries got (counting nodes p res) = res ≡ got
  Carries got (deleting_nodes nodes p res) = res ≡ got
  Carries got (deleting p res) = res ≡ got
  Carries got (walking first last a res) = res ≡ got
  Carries got (linking first last a res) = res ≡ got
  Carries got (chaining first last a res) = res ≡ got
  Carries got (leaving res) = res ≡ got

  -- With labels for the addresses, and cells for the nodes of the stack.
  pub record Inv (n : ℕ) (m : Model T) (s : State T) : Type ℓ where
    pub labels : ℕ → Label
    pub cells : List (ℕ × Option T)
    pub pending_cells : List (ℕ × Option T)
    pub allocated : (a : ℕ) → (labels a ≡ free) ⊎ ((k : Node T) × (s.heap a ≡ some k))
    pub stack_chain : Seg s.heap labels stacked s.head cells none
    pub contents_eq : map (λ c. c.1) cells ≡ m.contents
    pub pending_chain : Seg s.heap labels pending s.to_be_deleted pending_cells none
    pub threads : (t : ℕ) → Has s.heap labels m.in_hand t (s.places t)
    pub results : (t : ℕ) → Carries (m.in_hand t) (s.places t)
    pub counts : Counts n s
    pub above : (t : ℕ) → n ≤ t → counted (s.places t) ≡ 0
