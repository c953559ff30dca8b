-- ===== src/RefCountStack/Frames.antt =====
-- What a step at one address leaves to the other threads.
use native.Mathlib.Decide.{ℕ_discrete}
use mathlib.Core.Path.{subst}
use mathlib.Core.Option.{some-injective}
use concurrency_in_action.Common.{
  ℕ, ◌≡◌, ◌≢◌, refl, sym, ap, ◌∙◌, Option, some, update, update_self, update_ne, ==_iff,
}
use concurrency_in_action.RefCountStack.{
  CountedPtr, Node, Place, returned, loading, inserting, entering, increasing, holding, comparing,
  taking, adding, dropping, deleting,
}
use concurrency_in_action.RefCountStack.Labels.{
  Label, free, settled, fresh, doomed, linked, taken, is_one, refers, At,
}
use concurrency_in_action.RefCountStack.Roles.{Links, Has}

-- The node is of thread `u`.
abbrev pub IsOf : ℕ → Label → Type 0
IsOf u free = ⊥
IsOf u settled = ⊥
IsOf u (fresh t) = u ≡ t
IsOf u (doomed t) = u ≡ t
IsOf u (linked e) = ⊥
IsOf u (taken t e) = u ≡ t

pub is_one_self : (a : ℕ) → is_one a a ≡ 1
is_one_self a = rw ((==_iff a a).1 refl)

module _ {ℓ} {T : Type ℓ} where
  module _ (heap heap' : ℕ → Option (Node T)) (labels labels' : ℕ → Label)
      (in_hand in_hand' : ℕ → Option T) (u p : ℕ)
      (away : (a : ℕ) → p ≢ a → (labels' a ≡ labels a) × (heap' a ≡ heap a))
      (hand : in_hand' u ≡ in_hand u) (own : (L : Label) → IsOf u L → labels p ≡ L → labels' p ≡ L)
      (body : (L : Label)
        → IsOf u L
        → labels p ≡ L
        → (d : Option T) → At (heap p) (λ k. k.data_ ≡ d)
        → At (heap' p) (λ k. k.data_ ≡ d)) where
    owned : (a : ℕ) (L : Label) → IsOf u L → labels a ≡ L → labels' a ≡ L
    owned a L o l = elim (ℕ_discrete p a) [
      | yes same ↦ ap labels' (sym same) ∙ own L o (ap labels same ∙ l)
      | no ne ↦ (away a ne).0 ∙ l
    ]

    own_data :
        (a : ℕ) (L : Label)
        → IsOf u L
        → labels a ≡ L
        → At (heap a) (λ k. k.data_ ≡ in_hand u)
        → At (heap' a) (λ k. k.data_ ≡ in_hand' u)
    own_data a L o l h = elim (ℕ_discrete p a) [
      | yes same ↦
          subst (λ b. At (heap' b) (λ k. k.data_ ≡ in_hand' u)) same
            (body L o (ap labels same ∙ l) (in_hand' u)
              (subst (λ b. At (heap b) (λ k. k.data_ ≡ in_hand' u)) (sym same) (rw hand h)))
      | no ne ↦ rw ((away a ne).1, hand) h
    ]

    pub Has-other :
        (q : Place T)
        → ((next : CountedPtr)
            → refers p q ≡ 1
            → Links (labels p) (heap p) next
            → Links (labels' p) (heap' p) next)
        → Has heap labels in_hand u q
        → Has heap' labels' in_hand' u q
    Has-other (returned res) link h = tt
    Has-other (loading a) link (l, h) = (owned a (fresh u) refl l, own_data a (fresh u) refl l h)
    Has-other (inserting a) link (l, h) = (owned a (fresh u) refl l, own_data a (fresh u) refl l h)
    Has-other entering link h = tt
    Has-other (increasing c) link h = tt
    Has-other (holding c) link h = tt
    Has-other (comparing e a next) link h = elim (ℕ_discrete p a) [
      | yes same ↦
          subst (λ b. Links (labels' b) (heap' b) next) same
            (link next (subst (λ b. is_one p b ≡ 1) same (is_one_self p))
              (subst (λ b. Links (labels b) (heap b) next) (sym same) h))
      | no ne ↦ rw ((away a ne).0, (away a ne).1) h
    ]
    Has-other (taking e a) link (l, h) =
        (owned a (taken u e) refl l, own_data a (taken u e) refl l h)
    Has-other (adding e a res) link (l, h) = (owned a (taken u e) refl l, h)
    Has-other (dropping a c) link h = tt
    Has-other (deleting a after) link (l, h) = (owned a (doomed u) refl l, h)

  module _ (t : ℕ) (heap : ℕ → Option (Node T)) (labels : ℕ → Label)
      (in_hand in_hand' : ℕ → Option T) (hand : (u : ℕ) → t ≢ u → in_hand' u ≡ in_hand u) where
    -- Nothing changes.
    pub others_stay :
        (u : ℕ) → t ≢ u → (q : Place T) → Has heap labels in_hand u q → Has heap labels in_hand' u q
    others_stay u ne q h =
        Has-other heap heap labels labels in_hand in_hand' u 0 (λ a ne. (refl, refl)) (hand u ne)
          (λ L o l. l) (λ L o l d k. k) q (λ next one k. k) h

    -- A node that is no other thread's gets another label, and may change.
    pub others_relabel :
        (heap' : ℕ → Option (Node T)) (p : ℕ) (X Y : Label)
        → ((a : ℕ) → p ≢ a → heap' a ≡ heap a)
        → labels p ≡ X
        → ((u : ℕ) → t ≢ u → IsOf u X → ⊥)
        → (u : ℕ) → t ≢ u
        → (q : Place T)
        → ((next : CountedPtr) → refers p q ≡ 1 → Links X (heap p) next → Links Y (heap' p) next)
        → Has heap labels in_hand u q
        → Has heap' (update labels p Y) in_hand' u q
    others_relabel heap' p X Y away l not_of u ne q link h =
        Has-other heap heap' labels (update labels p Y) in_hand in_hand' u p
          (λ a other. (update_ne labels p a Y other, away a other)) (hand u ne)
          (λ L o e. absurd (not_of u ne (subst (IsOf u) (sym e ∙ l) o)))
          (λ L o e. absurd (not_of u ne (subst (IsOf u) (sym e ∙ l) o))) q
          (λ next one k.
            subst (λ L. Links L (heap' p) next) (sym (update_self labels p Y))
              (link next one (subst (λ L. Links L (heap p) next) l k)))
          h

    -- Only the internal count of a node changes.
    pub others_count :
        (p : ℕ) (k k' : Node T)
        → heap p ≡ some k
        → k'.data_ ≡ k.data_
        → k'.next ≡ k.next
        → (u : ℕ) → t ≢ u
        → (q : Place T) → Has heap labels in_hand u q
        → Has (update heap p (some k')) labels in_hand' u q
    others_count p k k' at dat nxt u ne q h =
        Has-other heap (update heap p (some k')) labels labels in_hand in_hand' u p
          (λ a other. (refl, update_ne heap p a (some k') other)) (hand u ne) (λ L o e. e)
          (λ L o e d (z, here, same). (
            k',
            update_self heap p (some k'),
            dat ∙ ap (λ (y : Node T). y.data_) (some-injective k z (sym at ∙ here)) ∙ same,
          ))
          q (λ next one links. counted_link (labels p) next links) h
      where
        counted_link :
            (L : Label) (next : CountedPtr)
            → Links L (heap p) next
            → Links L (update heap p (some k') p) next
        counted_link free next links = tt
        counted_link (fresh t) next links = links
        counted_link (linked e) next (z, here, (same, u)) = (
          k',
          update_self heap p (some k'),
          (nxt ∙ ap (λ (y : Node T). y.next) (some-injective k z (sym at ∙ here)) ∙ same, u),
        )
        counted_link (taken t e) next links = tt
        counted_link settled next links = tt
        counted_link (doomed t) next links = tt
