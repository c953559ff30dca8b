-- ===== src/RefCountStack/References.antt =====
-- How the number of references to a node goes with a step.
use mathlib.Core.Path.{subst}
use native.Mathlib.Decide.{dec_lt}
use concurrency_in_action.Common.{
  ℕ, ◌+◌, ◌<◌, ◌≤◌, ◌≡◌, ◌≢◌, refl, sym, ap, ◌∙◌, Option, none, some, update, arith,
  total_below-update, le-total_below, total_below-le,
}
use concurrency_in_action.Nodes.{Pointer}
use concurrency_in_action.StackModel.{Model, after}
use concurrency_in_action.RefCountStack.{
  CountedPtr, Node, Place, returned, loading, inserting, entering, increasing, holding, comparing,
  taking, adding, dropping, deleting, State, Outcome, use_node,
}
use concurrency_in_action.RefCountStack.Labels.{
  Label, free, settled, fresh, doomed, linked, taken, is_one, points_to, refers, references,
  Balanced, Chain,
}
use concurrency_in_action.RefCountStack.Roles.{Links, Has, Carries, Inv, rebuild}
use concurrency_in_action.RefCountStack.Frames.{others_stay}

pub is_one_ne : (a p : ℕ) → a ≢ p → is_one a p ≡ 0
is_one_ne a p ne = ground arith

pub CountedPtr-eq : (c d : CountedPtr) → c.external_count ≡ d.external_count → c.ptr ≡ d.ptr → c ≡ d
CountedPtr-eq c d e f = ground arith

points_to-le : (a : ℕ) (p : Pointer) → points_to a p ≤ 1
points_to-le a none = omega arith
points_to-le a (some p) = ground arith

module _ {ℓ} {T : Type ℓ} where
  pub use_node_elim :
      (P : Option (Node T) → Outcome T → Type ℓ) (next : Node T → Outcome T) (o : Option (Node T))
      (k : Node T)
      → o ≡ some k
      → P (some k) (next k)
      → P o (use_node o next)
  use_node_elim P next o k e h = subst (λ q. P q (use_node q next)) (sym e) h

  refers-le : (a : ℕ) (q : Place T) → refers a q ≤ 1
  refers-le a (returned res) = omega arith
  refers-le a (loading p) = omega arith
  refers-le a (inserting p) = omega arith
  refers-le a entering = omega arith
  refers-le a (increasing c) = omega arith
  refers-le a (holding c) = points_to-le a c.ptr
  refers-le a (comparing e p next) = points_to-le a (some p)
  refers-le a (taking e p) = omega arith
  refers-le a (adding e p res) = omega arith
  refers-le a (dropping p c) = points_to-le a (some p)
  refers-le a (deleting p after) = omega arith

  pub references-le : (n a : ℕ) (places : ℕ → Place T) → references n places a ≤ n
  references-le n a places = total_below-le (refers a) (refers-le a) n places

  pub Balanced-none :
      (L : Label) (h : Option (Node T)) (c : ℕ) → h ≡ none → Balanced L h c → (L ≡ free) × (c ≡ 0)
  Balanced-none free h c e (z, u) = (refl, z)
  Balanced-none (fresh t) h c e (k, at, b) = absurd (cc)
  Balanced-none (linked x) h c e (k, at, b) = absurd (cc)
  Balanced-none (taken t x) h c e (k, at, b) = absurd (cc)
  Balanced-none settled h c e (k, at, b) = absurd (cc)
  Balanced-none (doomed t) h c e (k, at, b) = absurd (cc)

  pub Balanced-Links :
      (L : Label) (h : Option (Node T)) (c : ℕ) (k : Node T)
      → h ≡ some k
      → 1 ≤ c
      → Balanced L h c
      → Links L h k.next
  Balanced-Links free h c k e le b = tt
  Balanced-Links (fresh t) h c k e le (k', at, (i, z, u)) = absurd (omega (arith, z))
  Balanced-Links (linked x) h c k e le b = (k, e, (refl, tt))
  Balanced-Links (taken t x) h c k e le b = tt
  Balanced-Links settled h c k e le b = tt
  Balanced-Links (doomed t) h c k e le b = tt

  module _ (n t : ℕ) (mine : t < n) (m : Model T) (s : State T) (v : Inv n m s) where
    -- The references to `a` behind the step.
    pub recount :
        (a : ℕ) (from to : Place T)
        → s.places t ≡ from
        → references n (update s.places t to) a + refers a from
          ≡ references n s.places a + refers a to
    recount a from to e =
        let change = total_below-update (refers a) n t s.places to mine in
        let now = ap (refers a) e in omega (arith, change, now)

    pub one-le-references :
        (a : ℕ) (from : Place T)
        → s.places t ≡ from
        → refers a from ≡ 1
        → 1 ≤ references n s.places a
    one-le-references a from e one =
        let le = le-total_below (refers a) n t s.places mine in
        let now = ap (refers a) e in omega (arith, le, now, one)

    -- Nobody refers to a node without references.
    pub unreferenced :
        (a u : ℕ) (q : Place T) → references n s.places a ≡ 0 → s.places u ≡ q → refers a q ≢ 1
    unreferenced a u q z e one = elim (dec_lt u n) [
      | yes below ↦
          let le = le-total_below (refers a) n u s.places below in
          let now = ap (refers a) e in absurd (omega (arith, le, now, one, z))
      | no not_below ↦
          let rest = ap (refers a) (sym (v.above u (omega (arith, not_below))) ∙ e) in
          absurd (omega (arith, rest, one))
    ]

    -- A step that changes no node and no reference.
    pub quiet :
        (m' : Model T) (head' : CountedPtr) (from to : Place T)
        → s.places t ≡ from
        → ((a : ℕ) → refers a to ≡ refers a from)
        → ((u : ℕ) → t ≢ u → m'.in_hand u ≡ m.in_hand u)
        → m'.contents ≡ m.contents
        → Chain s.heap v.labels head' v.cells
        → Has s.heap v.labels m'.in_hand t to
        → Carries (m'.in_hand t) to
        → Inv n m' (record s { head = head'; places = update s.places t to })
    quiet m' head' from to e keep hand co chain has ca =
        let change = recount 0 from to e in
        let kept = keep 0 in
        let count : references n (update s.places t to) 0 ≡ references n s.places 0 =
          omega (arith, change, kept) in
        rebuild n t mine m m' s v 0 v.labels s.heap head' from to v.cells e (λ a ne. (refl, refl))
          (λ a ne. keep a) hand
          (λ u ne q at. others_stay t s.heap v.labels m.in_hand m'.in_hand hand u ne q)
          (rw count (v.balanced 0)) chain (v.contents_eq ∙ sym co) has ca
