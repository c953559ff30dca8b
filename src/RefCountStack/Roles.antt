-- ===== src/RefCountStack/Roles.antt =====
-- What each thread may rely on at its place, the invariant of the stack, and a step of one thread.
use native.Mathlib.Decide.{ℕ_discrete}
use mathlib.Core.Path.{subst}
use concurrency_in_action.Common.{
  ℕ, ◌<◌, ◌≤◌, ◌≡◌, ◌≢◌, refl, sym, ap, Option, none, some, List, map, arith, update, update_elim,
  update_ne, total_below-update,
}
use concurrency_in_action.Nodes.{Pointer}
use concurrency_in_action.StackModel.{Model}
use concurrency_in_action.RefCountStack.{
  CountedPtr, Node, After, returns, repeats, Place, returned, loading, inserting, entering,
  increasing, holding, comparing, taking, adding, dropping, deleting, State,
}
use concurrency_in_action.RefCountStack.Labels.{
  Label, free, settled, fresh, doomed, linked, taken, refers, references, At, Balanced, Chain,
}

module _ {ℓ} {T : Type ℓ} where
  -- While the node is in the stack, its link is `next`.
  abbrev pub Links : Label → Option (Node T) → CountedPtr → Type ℓ
  Links free h next = Unit
  Links (fresh t) h next = ⊥ × Unit {ℓ}
  Links (linked e) h next = At h (λ k. (k.next ≡ next) × Unit {ℓ})
  Links (taken t e) h next = Unit
  Links settled h next = Unit
  Links (doomed t) h next = Unit

  abbrev pub Has : (ℕ → Option (Node T)) → (ℕ → Label) → (ℕ → Option T) → ℕ → Place T → Type ℓ
  Has heap labels in_hand t (returned res) = Unit
  Has heap labels in_hand t (loading p) =
      (labels p ≡ fresh t) × At (heap p) (λ k. k.data_ ≡ in_hand t)
  Has heap labels in_hand t (inserting p) =
      (labels p ≡ fresh t) × At (heap p) (λ k. k.data_ ≡ in_hand t)
  Has heap labels in_hand t entering = Unit
  Has heap labels in_hand t (increasing c) = Unit
  Has heap labels in_hand t (holding c) = Unit
  Has heap labels in_hand t (comparing e p next) = Links (labels p) (heap p) next
  Has heap labels in_hand t (taking e p) =
      (labels p ≡ taken t e) × At (heap p) (λ k. k.data_ ≡ in_hand t)
  Has heap labels in_hand t (adding e p res) = (labels p ≡ taken t e) × Unit {ℓ}
  Has heap labels in_hand t (dropping p c) = Unit
  Has heap labels in_hand t (deleting p a) = (labels p ≡ doomed t) × Unit {ℓ}

  -- What a thread is to return is what it took, or null if it found the stack empty.
  abbrev pub ToReturn : Option T → After T → Type ℓ
  ToReturn got (returns res) = res ≡ got
  ToReturn got (repeats c) = Unit

  abbrev pub IfNull : Option T → Pointer → Type ℓ
  IfNull got none = none ≡ got
  IfNull got (some p) = Unit

  abbrev pub Carries : Option T → Place T → Type ℓ
  Carries got (returned res) = Unit
  Carries got (loading p) = (v : T) × (got ≡ some v)
  Carries got (inserting p) = (v : T) × (got ≡ some v)
  Carries got entering = Unit
  Carries got (increasing c) = Unit
  Carries got (holding c) = IfNull got c.ptr
  Carries got (comparing e p next) = Unit
  Carries got (taking e p) = Unit
  Carries got (adding e p res) = res ≡ got
  Carries got (dropping p c) = Unit
  Carries got (deleting p a) = ToReturn got a

  -- With labels for the addresses, and cells for the nodes of the stack.
  pub record Inv (n : ℕ) (m : Model T) (s : State T) : Type ℓ where
    pub labels : ℕ → Label
    pub cells : List (ℕ × Option T)
    pub balanced : (a : ℕ) → Balanced (labels a) (s.heap a) (references n s.places a)
    pub stack_chain : Chain s.heap labels s.head cells
    pub contents_eq : map (λ c. c.1) cells ≡ m.contents
    pub threads : (t : ℕ) → Has s.heap labels m.in_hand t (s.places t)
    pub results : (t : ℕ) → Carries (m.in_hand t) (s.places t)
    pub above : (t : ℕ) → n ≤ t → s.places t ≡ returned none

  module _ (n t : ℕ) (mine : t < n) where
    above-goes :
        (places : ℕ → Place T) (p : Place T)
        → ((u : ℕ) → n ≤ u → places u ≡ returned none)
        → (u : ℕ) → n ≤ u
        → update places t p u ≡ returned none
    above-goes places p h u le =
        rw (update_ne places t u p (λ e. absurd (omega (arith, e)))) (h u le)

    -- A step that changes at most the address `p`.
    pub rebuild :
        (m m' : Model T) (s : State T) (v : Inv n m s) (p : ℕ) (labels' : ℕ → Label)
        (heap' : ℕ → Option (Node T)) (head' : CountedPtr) (from to : Place T)
        (cells' : List (ℕ × Option T))
        → s.places t ≡ from
        → ((a : ℕ) → p ≢ a → (labels' a ≡ v.labels a) × (heap' a ≡ s.heap a))
        → ((a : ℕ) → p ≢ a → refers a to ≡ refers a from)
        → ((u : ℕ) → t ≢ u → m'.in_hand u ≡ m.in_hand u)
        → ((u : ℕ)
            → t ≢ u
            → (q : Place T) → s.places u ≡ q
            → Has s.heap v.labels m.in_hand u q
            → Has heap' labels' m'.in_hand u q)
        → Balanced (labels' p) (heap' p) (references n (update s.places t to) p)
        → Chain heap' labels' head' cells'
        → map (λ c. c.1) cells' ≡ m'.contents
        → Has heap' labels' m'.in_hand t to
        → Carries (m'.in_hand t) to
        → Inv n m' (record { heap = heap'; head = head'; places = update s.places t to })
    rebuild m m' s v p labels' heap' head' from to cells' e away other_refs hand others bal st co
          has ca =
        record {
          labels = labels';
          cells = cells';
          balanced = λ a. elim (ℕ_discrete p a) [
            | yes same ↦
                subst (λ b. Balanced (labels' b) (heap' b) (references n (update s.places t to) b))
                  same bal
            | no ne ↦
                let change = total_below-update (refers a) n t s.places to mine in
                let now = ap (refers a) e in
                let keep = other_refs a ne in
                let count : references n (update s.places t to) a ≡ references n s.places a =
                  omega (arith, change, now, keep) in
                rw ((away a ne).0, (away a ne).1, count) (v.balanced a)
          ];
          stack_chain = st;
          contents_eq = co;
          threads =
              update_elim (λ u q. Has heap' labels' m'.in_hand u q) s.places t to has
                (λ u ne. others u ne (s.places u) refl (v.threads u));
          results =
              update_elim (λ u q. Carries (m'.in_hand u) q) s.places t to ca
                (λ u ne. subst (λ r. Carries r (s.places u)) (sym (hand u ne)) (v.results u));
          above = above-goes s.places to v.above;
        }
