-- ===== src/LockFreeQueue/Invariant.antt =====
-- What holds between the steps of the two threads, and that each step keeps it.
use mathlib.Core.Path.{subst}
use concurrency_in_action.Common.{
  ℕ, ◌<◌, ◌≤◌, ◌≡◌, refl, sym, ◌∙◌, false, Option, none, some, List, [], ◌∷◌, ◌++◌, arith, update,
  update_self, update_ne,
}
use concurrency_in_action.Nodes.{Node, new_node}
use concurrency_in_action.Nodes.Segment.{Segment, Segment-le, Segment-update_above, is_empty}
use concurrency_in_action.LockFreeQueue.{
  Producer, filling, linking, publishing, Consumer, testing, moving, reading, deleting, Queue,
  new_queue, start_push,
}

module _ {ℓ} {T : Type ℓ} where
  -- The thread that pushes is at work on the last node, and on a new one.
  abbrev pub Working : Producer T → (ℕ → Option (Node T)) → (fresh tail : ℕ) → Node T → Type ℓ
  Working Producer.resting heap fresh tail last = last ≡ new_node
  Working (filling v p e) heap fresh tail last =
      (e ≡ tail) × (tail < p) × (p < fresh) × (heap p ≡ some new_node) × (last ≡ new_node)
  Working (linking v p e) heap fresh tail last =
      (e ≡ tail)
      × (tail < p)
      × (p < fresh)
      × (heap p ≡ some new_node)
      × (last ≡ record { data_ = some v; next = none })
  Working (publishing v p e) heap fresh tail last =
      (e ≡ tail)
      × (tail < p)
      × (p < fresh)
      × (heap p ≡ some new_node)
      × (last ≡ record { data_ = some v; next = some p })

  -- The thread that pops holds the values `hand`, whose node it has taken out of the list, which now
  -- begins at `start` and holds `xs`.
  abbrev pub Taking : Consumer T → (ℕ → Option (Node T)) → (start : ℕ) (hand xs : List T) → Type ℓ
  Taking Consumer.resting heap start hand xs = hand ≡ []
  Taking (testing a) heap start hand xs = (hand ≡ []) × (a ≡ some start)
  Taking (moving a) heap start hand xs = (hand ≡ []) × (a ≡ some start) × (is_empty xs ≡ false)
  Taking (reading a) heap start hand xs =
      (c : ℕ) × (x : T) × (n : Node T) × (a ≡ some c)
      × (c < start)
      × (heap c ≡ some n)
      × (n.data_ ≡ some x)
      × (hand ≡ x ∷ [])
  Taking (deleting a res) heap start hand xs =
      (c : ℕ) × (x : T) × (n : Node T) × (a ≡ some c)
      × (c < start)
      × (heap c ≡ some n)
      × (res ≡ some x)
      × (hand ≡ x ∷ [])

  pub record Represents (q : Queue T) (hand xs : List T) : Type ℓ where
    pub start : ℕ
    pub last : Node T
    pub at_head : q.head ≡ some start
    pub segment : Segment q.heap start xs q.tail last
    pub below : q.tail < q.fresh
    pub working : Working q.producer q.heap q.fresh q.tail last
    pub taking : Taking q.consumer q.heap start hand xs

  pub new_queue-Represents : Represents new_queue [] []
  new_queue-Represents = record {
    start = 0;
    last = new_node;
    at_head = refl;
    segment = (refl, refl);
    below = omega arith;
    working = refl;
    taking = refl;
  }

  -- A write at or behind `start` does not touch the node in hand.
  pub Taking-update :
      (c : Consumer T) (heap : ℕ → Option (Node T)) (start b : ℕ) (n : Option (Node T))
      (hand xs : List T)
      → start ≤ b
      → Taking c heap start hand xs
      → Taking c (update heap b n) start hand xs
  Taking-update Consumer.resting heap start b n hand xs h t = t
  Taking-update (testing a) heap start b n hand xs h t = t
  Taking-update (moving a) heap start b n hand xs h t = t
  Taking-update (reading a) heap start b n hand xs h (c, x, m, e, lt, at, d, i) =
      (c, x, m, e, lt, update_ne heap b c n (omega arith) ∙ at, d, i)
  Taking-update (deleting a r) heap start b n hand xs h (c, x, m, e, lt, at, d, i) =
      (c, x, m, e, lt, update_ne heap b c n (omega arith) ∙ at, d, i)

  -- A longer list is no less nonempty.
  pub Taking-append :
      (c : Consumer T) (heap : ℕ → Option (Node T)) (start : ℕ) (hand xs : List T) (v : T)
      → Taking c heap start hand xs
      → Taking c heap start hand (xs ++ (v ∷ []))
  Taking-append Consumer.resting heap start hand xs v t = t
  Taking-append (testing a) heap start hand xs v t = t
  Taking-append (moving a) heap start hand [] v t = ground (arith, t)
  Taking-append (moving a) heap start hand (x ∷ xs) v t = t
  Taking-append (reading a) heap start hand xs v t = t
  Taking-append (deleting a r) heap start hand xs v t = t

  -- A write below the tail does not touch the new node.
  pub Working-update :
      (p : Producer T) (heap : ℕ → Option (Node T)) (fresh tail b : ℕ) (last : Node T)
      (n : Option (Node T))
      → b < tail
      → Working p heap fresh tail last
      → Working p (update heap b n) fresh tail last
  Working-update Producer.resting heap fresh tail b last n h w = w
  Working-update (filling v p e) heap fresh tail b last n h (t, l, f, at, i) =
      (t, l, f, update_ne heap b p n (omega arith) ∙ at, i)
  Working-update (linking v p e) heap fresh tail b last n h (t, l, f, at, i) =
      (t, l, f, update_ne heap b p n (omega arith) ∙ at, i)
  Working-update (publishing v p e) heap fresh tail b last n h (t, l, f, at, i) =
      (t, l, f, update_ne heap b p n (omega arith) ∙ at, i)

  pub start_push-Represents :
      (v : T) (p : Producer T) (q : Queue T) (hand xs : List T)
      → p ≡ q.producer
      → Represents q hand xs
      → Represents (start_push v p q) hand xs
  start_push-Represents v Producer.resting q hand xs e r = record {
    start = r.start;
    last = r.last;
    at_head = r.at_head;
    segment =
        Segment-update_above q.heap r.start xs q.tail r.last q.fresh (some new_node) r.below
          r.segment;
    below = omega (arith, r.below);
    working = (
      refl,
      r.below,
      omega arith,
      update_self q.heap q.fresh (some new_node),
      subst (λ p. Working p q.heap q.fresh q.tail r.last) (sym e) r.working,
    );
    taking =
        Taking-update q.consumer q.heap r.start q.fresh (some new_node) hand xs
          (omega (arith, r.below, Segment-le q.heap r.start xs q.tail r.last r.segment)) r.taking;
  }
  start_push-Represents v (filling w p e) q hand xs h r = r
  start_push-Represents v (linking w p e) q hand xs h r = r
  start_push-Represents v (publishing w p e) q hand xs h r = r
