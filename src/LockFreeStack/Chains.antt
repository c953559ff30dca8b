-- ===== src/LockFreeStack/Chains.antt =====
-- Nodes with one label, each of which points to the next.
use mathlib.Core.Path.{subst}
use mathlib.Core.Option.{some-injective}
use concurrency_in_action.Common.{
  ℕ, ◌≡◌, ◌≢◌, refl, sym, ap, ◌∙◌, Option, none, some, List, [], ◌∷◌, ◌++◌, update, update_self,
  update_ne,
}
use concurrency_in_action.Nodes.{Node, Pointer}
use concurrency_in_action.LockFreeStack.Labels.{Label, Change, Change-elsewhere}

module _ {ℓ} {T : Type ℓ} where
  abbrev pub IsOut : ℕ → List (ℕ × Option T) → Type 0
  IsOut a [] = Unit
  IsOut a ((b, d) ∷ xs) = (a ≢ b) × IsOut a xs

  -- From pointer `p` the nodes `xs`, each with its data, lead to pointer `e`.
  abbrev pub Seg :
      (ℕ → Option (Node T)) → (ℕ → Label) → Label → Pointer → List (ℕ × Option T) → Pointer → Type ℓ
  Seg heap labels X p [] e = (p ≡ e) × Unit {ℓ}
  Seg heap labels X p ((a, d) ∷ xs) e =
      (p ≡ some a)
      × (labels a ≡ X)
      × IsOut a xs
      × ((k : Node T) × (heap a ≡ some k) × (k.data_ ≡ d) × Seg heap labels X k.next xs e)

  -- A change away from the chain.
  pub Seg-Change :
      (X Y Z : Label) (labels labels' : ℕ → Label) (heap heap' : ℕ → Option (Node T))
      (p e : Pointer) (xs : List (ℕ × Option T))
      → Change X Y labels labels' heap heap'
      → X ≢ Z
      → Seg heap labels Z p xs e
      → Seg heap' labels' Z p xs e
  Seg-Change X Y Z labels labels' heap heap' p e [] c ne s = s
  Seg-Change X Y Z labels labels' heap heap' p e ((a, d) ∷ xs) c ne
        (at, l, out, (k, here, dat, rest)) =
      let (l', same) = Change-elsewhere X Y Z labels labels' heap heap' a c ne l in
      (
        at,
        l',
        out,
        (k, same ∙ here, dat, Seg-Change X Y Z labels labels' heap heap' k.next e xs c ne rest),
      )

  -- Another label for one node outside the chain.
  pub Seg-out :
      (X Y : Label) (labels : ℕ → Label) (heap : ℕ → Option (Node T)) (c : ℕ) (p e : Pointer)
      (xs : List (ℕ × Option T))
      → IsOut c xs
      → Seg heap labels X p xs e
      → Seg heap (update labels c Y) X p xs e
  Seg-out X Y labels heap c p e [] h s = s
  Seg-out X Y labels heap c p e ((a, d) ∷ xs) (ne, h) (at, l, out, (k, here, dat, rest)) = (
    at,
    update_ne labels c a Y ne ∙ l,
    out,
    (k, here, dat, Seg-out X Y labels heap c k.next e xs h rest),
  )

  -- Another label, and no node, at one address outside the chain.
  pub Seg-removed :
      (X Y : Label) (labels : ℕ → Label) (heap : ℕ → Option (Node T)) (c : ℕ) (p e : Pointer)
      (xs : List (ℕ × Option T))
      → IsOut c xs
      → Seg heap labels X p xs e
      → Seg (update heap c none) (update labels c Y) X p xs e
  Seg-removed X Y labels heap c p e [] h s = s
  Seg-removed X Y labels heap c p e ((a, d) ∷ xs) (ne, h) (at, l, out, (k, here, dat, rest)) = (
    at,
    update_ne labels c a Y ne ∙ l,
    out,
    (k, update_ne heap c a none ne ∙ here, dat, Seg-removed X Y labels heap c k.next e xs h rest),
  )

  -- The whole chain gets another label.
  pub Seg-relabel :
      (X Y : Label) (labels labels' : ℕ → Label) (heap : ℕ → Option (Node T)) (p e : Pointer)
      (xs : List (ℕ × Option T))
      → ((a : ℕ) → labels a ≡ X → labels' a ≡ Y)
      → Seg heap labels X p xs e
      → Seg heap labels' Y p xs e
  Seg-relabel X Y labels labels' heap p e [] h s = s
  Seg-relabel X Y labels labels' heap p e ((a, d) ∷ xs) h (at, l, out, (k, here, dat, rest)) =
      (at, h a l, out, (k, here, dat, Seg-relabel X Y labels labels' heap k.next e xs h rest))

  Seg-IsOut :
      (X Z : Label) (labels : ℕ → Label) (heap : ℕ → Option (Node T)) (c : ℕ) (p e : Pointer)
      (xs : List (ℕ × Option T))
      → labels c ≡ Z
      → Z ≢ X
      → Seg heap labels X p xs e
      → IsOut c xs
  Seg-IsOut X Z labels heap c p e [] l ne s = tt
  Seg-IsOut X Z labels heap c p e ((a, d) ∷ xs) l ne (at, la, out, (k, here, dat, rest)) =
      (λ same. ne (sym l ∙ ap labels same ∙ la), Seg-IsOut X Z labels heap c k.next e xs l ne rest)

  -- A node before the chain, with the label of the chain from now on.
  pub Seg-cons :
      (X Z : Label) (labels : ℕ → Label) (heap : ℕ → Option (Node T)) (c : ℕ) (k : Node T)
      (e : Pointer) (xs : List (ℕ × Option T))
      → labels c ≡ Z
      → Z ≢ X
      → heap c ≡ some k
      → Seg heap labels X k.next xs e
      → Seg heap (update labels c X) X (some c) ((c, k.data_) ∷ xs) e
  Seg-cons X Z labels heap c k e xs l ne here s =
      let out = Seg-IsOut X Z labels heap c k.next e xs l ne s in
      (
        refl,
        update_self labels c X,
        out,
        (k, here, refl, Seg-out X X labels heap c k.next e xs out s),
      )

  IsOut-append :
      (c : ℕ) (xs ys : List (ℕ × Option T)) → IsOut c xs → IsOut c ys → IsOut c (xs ++ ys)
  IsOut-append c [] ys hx hy = hy
  IsOut-append c ((a, d) ∷ xs) ys (ne, hx) hy = (ne, IsOut-append c xs ys hx hy)

  -- Two chains with different labels, one after the other.
  pub Seg-join :
      (X Y : Label) (labels labels' : ℕ → Label) (heap : ℕ → Option (Node T)) (p m e : Pointer)
      (xs ys : List (ℕ × Option T))
      → ((a : ℕ) → labels a ≡ X → labels' a ≡ Y)
      → ((a : ℕ) → labels a ≡ Y → labels' a ≡ Y)
      → X ≢ Y
      → Seg heap labels X p xs m
      → Seg heap labels Y m ys e
      → Seg heap labels' Y p (xs ++ ys) e
  Seg-join X Y labels labels' heap p m e [] ys hx hy ne (same, u) t =
      subst (λ q. Seg heap labels' Y q ys e) (sym same)
        (Seg-relabel Y Y labels labels' heap m e ys hy t)
  Seg-join X Y labels labels' heap p m e ((a, d) ∷ xs) ys hx hy ne
        (at, l, out, (k, here, dat, rest)) t =
      (
        at,
        hx a l,
        IsOut-append a xs ys out (Seg-IsOut Y X labels heap a m e ys l ne t),
        (k, here, dat, Seg-join X Y labels labels' heap k.next m e xs ys hx hy ne rest t),
      )

  -- The last node of a chain, and a write to its link.
  pub Seg-last :
      (X : Label) (labels : ℕ → Label) (heap : ℕ → Option (Node T)) (p e : Pointer) (c : ℕ)
      (d : Option T) (xs : List (ℕ × Option T))
      → Seg heap labels X p (xs ++ ((c, d) ∷ [])) e
      → (labels c ≡ X) × ((k : Node T) × (heap c ≡ some k) × (k.data_ ≡ d) × (k.next ≡ e))
  Seg-last X labels heap p e c d [] (at, l, out, (k, here, dat, (end, u))) =
      (l, (k, here, dat, end))
  Seg-last X labels heap p e c d ((a, b) ∷ xs) (at, l, out, (k, here, dat, rest)) =
      Seg-last X labels heap k.next e c d xs rest

  IsOut-last :
      (a c : ℕ) (d : Option T) (xs : List (ℕ × Option T)) → IsOut a (xs ++ ((c, d) ∷ [])) → c ≢ a
  IsOut-last a c d [] (ne, u) e = ne (sym e)
  IsOut-last a c d (x ∷ xs) (ne, h) e = IsOut-last a c d xs h e

  pub Seg-set_last :
      (X : Label) (labels : ℕ → Label) (heap : ℕ → Option (Node T)) (p e q : Pointer) (c : ℕ)
      (d : Option T) (k : Node T) (xs : List (ℕ × Option T))
      → heap c ≡ some k
      → Seg heap labels X p (xs ++ ((c, d) ∷ [])) e
      → Seg (update heap c (some (record k { next = q }))) labels X p (xs ++ ((c, d) ∷ [])) q
  Seg-set_last X labels heap p e q c d k [] same (at, l, out, (k', here, dat, (end, u))) = (
    at,
    l,
    out,
    (
      record k { next = q },
      update_self heap c (some (record k { next = q })),
      ap (λ (m : Node T). m.data_) (some-injective k k' (sym same ∙ here)) ∙ dat,
      (refl, u),
    ),
  )
  Seg-set_last X labels heap p e q c d k ((a, b) ∷ xs) same (at, l, out, (k', here, dat, rest)) = (
    at,
    l,
    out,
    (
      k',
      update_ne heap c a (some (record k { next = q })) (IsOut-last a c d xs out) ∙ here,
      dat,
      Seg-set_last X labels heap k'.next e q c d k xs same rest,
    ),
  )
