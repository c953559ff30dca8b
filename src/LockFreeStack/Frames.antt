-- ===== src/LockFreeStack/Frames.antt =====
-- What a step of one thread leaves to the others.
use mathlib.Core.Path.{subst}
use concurrency_in_action.Common.{
  ℕ, ◌≡◌, ◌≢◌, refl, sym, ◌∙◌, inl, inr, Option, none, some, List, [], ◌∷◌, ◌++◌,
}
use concurrency_in_action.Nodes.{Node, Pointer}
use concurrency_in_action.LockFreeStack.{
  After, deletes, leaves, Place, returned, loading, inserting, entering, loading_head, looping,
  comparing, taking, reclaiming, claiming, counting, deleting_nodes, deleting, walking, linking,
  chaining, leaving,
}
use concurrency_in_action.LockFreeStack.Count.{counted}
use concurrency_in_action.LockFreeStack.Labels.{
  Label, free, stacked, pending, fresh, held, doomed, claimed, condemned, IsShared, IsOf, Change,
  Change-elsewhere,
}
use concurrency_in_action.LockFreeStack.Chains.{Seg, Seg-Change}
use concurrency_in_action.LockFreeStack.Roles.{Refers, IsDoomed, MayFollow, Claims, Has}

module _ {ℓ} {T : Type ℓ} where
  Refers-heap :
      (L : Label) (heap heap' : ℕ → Option (Node T)) (a : ℕ) (next : Pointer)
      → heap' a ≡ heap a
      → Refers L heap a next
      → Refers L heap' a next
  Refers-heap free heap heap' a next e h = h
  Refers-heap stacked heap heap' a next e (k, here, h) = (k, e ∙ here, h)
  Refers-heap pending heap heap' a next e h = h
  Refers-heap (fresh t) heap heap' a next e h = h
  Refers-heap (held t) heap heap' a next e h = h
  Refers-heap (doomed t) heap heap' a next e h = h
  Refers-heap (claimed t) heap heap' a next e h = h
  Refers-heap (condemned t) heap heap' a next e h = h

  pub Refers-IsShared :
      (L : Label) (heap : ℕ → Option (Node T)) (a : ℕ) (next : Pointer)
      → Refers L heap a next
      → IsShared L
  Refers-IsShared free heap a next h = h.0
  Refers-IsShared stacked heap a next h = tt
  Refers-IsShared pending heap a next h = tt
  Refers-IsShared (fresh t) heap a next h = h.0
  Refers-IsShared (held t) heap a next h = tt
  Refers-IsShared (doomed t) heap a next h = h.0
  Refers-IsShared (claimed t) heap a next h = tt
  Refers-IsShared (condemned t) heap a next h = h.0

  -- A shared node, with the link that it has now.
  pub IsShared-Refers :
      (L : Label) (heap : ℕ → Option (Node T)) (a : ℕ) (k : Node T)
      → heap a ≡ some k
      → IsShared L
      → Refers L heap a k.next
  IsShared-Refers free heap a k e h = absurd h
  IsShared-Refers stacked heap a k e h = (k, e, (refl, tt))
  IsShared-Refers pending heap a k e h = tt
  IsShared-Refers (fresh t) heap a k e h = absurd h
  IsShared-Refers (held t) heap a k e h = tt
  IsShared-Refers (doomed t) heap a k e h = absurd h
  IsShared-Refers (claimed t) heap a k e h = tt
  IsShared-Refers (condemned t) heap a k e h = absurd h

  Refers-unstacked :
      (L : Label) (heap : ℕ → Option (Node T)) (a : ℕ) (next : Pointer)
      → IsShared L
      → L ≢ stacked
      → Refers L heap a next
  Refers-unstacked free heap a next h ne = absurd h
  Refers-unstacked stacked heap a next h ne = absurd (ne refl)
  Refers-unstacked pending heap a next h ne = tt
  Refers-unstacked (fresh t) heap a next h ne = absurd h
  Refers-unstacked (held t) heap a next h ne = tt
  Refers-unstacked (doomed t) heap a next h ne = absurd h
  Refers-unstacked (claimed t) heap a next h ne = tt
  Refers-unstacked (condemned t) heap a next h ne = absurd h

  -- What a thread relies on stays when a change does not concern its nodes, and does not take a node
  -- away that it may read: `stays` is wanted only of a thread that is counted.
  module _ (X Y : Label) (labels labels' : ℕ → Label) (heap heap' : ℕ → Option (Node T))
      (in_hand in_hand' : ℕ → Option T) (u : ℕ) (change : Change X Y labels labels' heap heap')
      (others : IsOf u X → ⊥) (same_hand : in_hand' u ≡ in_hand u) where
    mine : (a : ℕ) (Z : Label) → IsOf u Z → labels a ≡ Z → (labels' a ≡ Z) × (heap' a ≡ heap a)
    mine a Z o e =
        Change-elsewhere X Y Z labels labels' heap heap' a change
          (λ same. others (subst (IsOf u) (sym same) o)) e

    mine_Seg :
        (Z : Label) (p e : Pointer) (xs : List (ℕ × Option T))
        → IsOf u Z
        → Seg heap labels Z p xs e
        → Seg heap' labels' Z p xs e
    mine_Seg Z p e xs o s =
        Seg-Change X Y Z labels labels' heap heap' p e xs change
          (λ same. others (subst (IsOf u) (sym same) o)) s

    IsDoomed-Change : (p : Pointer) → IsDoomed labels u p → IsDoomed labels' u p
    IsDoomed-Change none h = h
    IsDoomed-Change (some p) h = (mine p (doomed u) refl h).0

    MayFollow-Change : (a : After) → MayFollow labels u a → MayFollow labels' u a
    MayFollow-Change (deletes p) h = IsDoomed-Change p h
    MayFollow-Change leaves h = h

    Claims-Change :
        (first last : Pointer) → Claims heap labels u first last → Claims heap' labels' u first last
    Claims-Change first none h = h
    Claims-Change first (some l) (xs, d, e, s) =
        (xs, d, e, mine_Seg (claimed u) first e (xs ++ ((l, d) ∷ [])) refl s)

    IsShared-Change :
        (a : ℕ)
        → (IsShared X → IsShared Y × (Y ≢ stacked))
        → IsShared (labels a)
        → IsShared (labels' a)
    IsShared-Change a stays h = elim (change a) [
      | inl (l, e) ↦ subst IsShared (sym l) h
      | inr (x, y) ↦ subst IsShared (sym y) (stays (subst IsShared x h)).0
    ]

    Refers-Change :
        (a : ℕ) (next : Pointer)
        → (IsShared X → IsShared Y × (Y ≢ stacked))
        → Refers (labels a) heap a next
        → Refers (labels' a) heap' a next
    Refers-Change a next stays h = elim (change a) [
      | inl (l, e) ↦
          subst (λ L. Refers L heap' a next) (sym l) (Refers-heap (labels a) heap heap' a next e h)
      | inr (x, y) ↦
          let (shared, ne) = stays (subst IsShared x (Refers-IsShared (labels a) heap a next h)) in
          subst (λ L. Refers L heap' a next) (sym y) (Refers-unstacked Y heap' a next shared ne)
    ]

    pub Has-Change :
        (p : Place T)
        → (counted p ≡ 1 → IsShared X → IsShared Y × (Y ≢ stacked))
        → Has heap labels in_hand u p
        → Has heap' labels' in_hand' u p
    Has-Change (returned res) stays h = tt
    Has-Change (loading p) stays (l, (k, here, h)) =
        ((mine p (fresh u) refl l).0, (k, (mine p (fresh u) refl l).1 ∙ here, h ∙ sym same_hand))
    Has-Change (inserting p) stays (l, (k, here, h)) =
        ((mine p (fresh u) refl l).0, (k, (mine p (fresh u) refl l).1 ∙ here, h ∙ sym same_hand))
    Has-Change entering stays h = tt
    Has-Change loading_head stays h = tt
    Has-Change (looping none) stays h = tt
    Has-Change (looping (some a)) stays (l, h) = (IsShared-Change a (stays refl) l, h)
    Has-Change (comparing a next) stays h = Refers-Change a next (stays refl) h
    Has-Change (taking p) stays (l, (k, here, h)) =
        ((mine p (held u) refl l).0, (k, (mine p (held u) refl l).1 ∙ here, h ∙ sym same_hand))
    Has-Change (reclaiming none res) stays h = tt
    Has-Change (reclaiming (some p) res) stays (l, h) = ((mine p (held u) refl l).0, h)
    Has-Change (claiming p res) stays (l, h) = (IsDoomed-Change p l, h)
    Has-Change (counting nodes p res) stays (l, (xs, s)) =
        (IsDoomed-Change p l, (xs, mine_Seg (claimed u) nodes none xs refl s))
    Has-Change (deleting_nodes nodes p res) stays (l, (xs, s)) =
        (IsDoomed-Change p l, (xs, mine_Seg (condemned u) nodes none xs refl s))
    Has-Change (deleting p res) stays (l, h) = (IsDoomed-Change p l, h)
    Has-Change (walking first last a res) stays (f, (xs, ys, s, r)) = (
      MayFollow-Change a f,
      (
        xs,
        ys,
        mine_Seg (claimed u) (some first) none (xs ++ ys) refl s,
        mine_Seg (claimed u) (some last) none ys refl r,
      ),
    )
    Has-Change (linking first last a res) stays (f, h) =
        (MayFollow-Change a f, Claims-Change first last h)
    Has-Change (chaining first last a res) stays (f, h) =
        (MayFollow-Change a f, Claims-Change first last h)
    Has-Change (leaving res) stays h = tt
