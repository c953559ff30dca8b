-- ===== src/LockFreeQueue/Fifo.antt =====
-- The order of the values over a run, and the destructor.
use mathlib.Core.Path.{subst}
use concurrency_in_action.Common.{
  All, Option, ◌≢◌, update_elim, update_self, update_ne, ℕ, suc, ◌≡◌, refl, sym, ap, ◌∙◌, none,
  some, List, [], ◌∷◌, ◌++◌, length, update,
}
use concurrency_in_action.Nodes.{Node, Pointer, new_node}
use concurrency_in_action.Nodes.Segment.{Segment, Segment-update_below}
use concurrency_in_action.LockFreeQueue.{Producer, Queue, Event, Op, run, destroy}
use concurrency_in_action.LockFreeQueue.Invariant.{Represents, Working}
use concurrency_in_action.LockFreeQueue.Steps.{
  put_in, taken_out, step-Follows, append_assoc, append_nil,
}

module _ {ℓ} {T : Type ℓ} where
  abbrev pub all_put_in : List (Event T) → List T
  all_put_in [] = []
  all_put_in (e ∷ es) = put_in e ++ all_put_in es

  abbrev pub all_taken_out : List (Event T) → List T
  all_taken_out [] = []
  all_taken_out (e ∷ es) = taken_out e ++ all_taken_out es

  -- From a queue that holds `xs`, with the values `hand` taken but not yet returned, for every order
  -- of the steps of the one pusher and the one popper: no null pointer and no deleted node is used,
  -- and the values that pops return, then those taken or left, are those that were there and then
  -- those of the pushes that ended, in that order.
  pub run-Fifo_lock_free :
      (os : List (Op T)) (q : Queue T) (hand xs : List T)
      → Represents q hand xs
      → (events : List (Event T)) × (q' : Queue T) × (hand' : List T) × (xs' : List T) × (run os q
          ≡ some (events, q'))
        × Represents q' hand' xs'
        × ((hand ++ xs) ++ all_put_in events ≡ all_taken_out events ++ (hand' ++ xs'))
  unfolding run
  run-Fifo_lock_free [] q hand xs r = ([], q, hand, xs, refl, r, append_nil (hand ++ xs))
  run-Fifo_lock_free (o ∷ os) q hand xs r =
      let (event, q1, hand1, xs1, e, r1, first) = step-Follows o q hand xs r in
      let (events, q', hand', xs', e', r', order) = run-Fifo_lock_free os q1 hand1 xs1 r1 in
      (
        event ∷ events,
        q',
        hand',
        xs',
        rw (e, e'),
        r',
        sym (append_assoc (hand ++ xs) (put_in event) (all_put_in events))
            ∙ ap (λ l. l ++ all_put_in events) first
            ∙ append_assoc (taken_out event) (hand1 ++ xs1) (all_put_in events)
            ∙ ap (λ l. taken_out event ++ l) order
            ∙ sym (append_assoc (taken_out event) (all_taken_out events) (hand' ++ xs')),
      )

  -- From pointer `p` the nodes at the addresses lead to the null pointer.
  abbrev pub IsChain : (ℕ → Option (Node T)) → Pointer → List ℕ → Type ℓ
  IsChain heap p [] = (p ≡ none) × Unit {ℓ}
  IsChain heap p (a ∷ rest) =
      (p ≡ some a) × ((k : Node T) × (heap a ≡ some k) × IsChain heap k.next rest)

  IsChain-before :
      (heap heap' : ℕ → Option (Node T)) (p : Pointer) (addresses : List ℕ)
      → ((b : ℕ) (k : Node T) → heap' b ≡ some k → heap b ≡ some k)
      → IsChain heap' p addresses
      → IsChain heap p addresses
  IsChain-before heap heap' p [] kept h = h
  IsChain-before heap heap' p (a ∷ rest) kept (at, (k, here, h)) =
      (at, (k, kept a k here, IsChain-before heap heap' k.next rest kept h))

  still_there :
      (heap : ℕ → Option (Node T)) (a b : ℕ) (k : Node T)
      → update heap a none b ≡ some k
      → heap b ≡ some k
  still_there heap a b k =
      update_elim (λ c h. h ≡ some k → heap c ≡ some k) heap a none (λ e. absurd (cc)) (λ c ne e. e)
        b

  -- The destructor's end: the nodes that the head led to are deleted, and no others.
  abbrev pub AllFreed : Queue T → Option (Queue T) → Type ℓ
  AllFreed q result =
      (q' : Queue T) × (addresses : List ℕ) × (result ≡ some q')
      × (q'.head ≡ none)
      × IsChain q.heap q.head addresses
      × All (λ a. q'.heap a ≡ none) addresses
      × ((b : ℕ) → q.heap b ≡ none → q'.heap b ≡ none)
      × ((b : ℕ) → All (λ a. a ≢ b) addresses → q'.heap b ≡ q.heap b)

  destroy-Segment :
      (xs : List T) (a : ℕ) (q : Queue T)
      → q.head ≡ some a
      → Segment q.heap a xs q.tail new_node
      → AllFreed q (destroy (suc (suc (length xs))) (some a) q)
  unfolding destroy
  destroy-Segment [] a q e (same, at) = (
    record q { heap = update q.heap q.tail none; head = none },
    a ∷ [],
    rw (same, at) refl,
    refl,
    (e, (new_node, ap q.heap same ∙ at, (refl, tt))),
    (ap (update q.heap q.tail none) same ∙ update_self q.heap q.tail none, tt),
    gone q.tail,
    λ b (ne, u). update_ne q.heap q.tail b none (λ h. ne (same ∙ h)),
  )
    where
      gone : (c b : ℕ) → q.heap b ≡ none → update q.heap c none b ≡ none
      gone c b =
          update_elim (λ j h. q.heap j ≡ none → h ≡ none) q.heap c none (λ h. refl) (λ j ne h. h) b
  destroy-Segment (x ∷ xs) a q at (b, here, lt, rest) =
      let left : Queue T = record q { heap = update q.heap a none; head = some b } in
      let (q', addresses, e, gone, chain, freed, none_stay, kept) =
        destroy-Segment xs b left refl
          (Segment-update_below q.heap b xs q.tail new_node a none lt rest) in
      (
        q',
        a ∷ addresses,
        rw here e,
        gone,
        (
          at,
          (
            record { data_ = some x; next = some b },
            here,
            IsChain-before q.heap left.heap (some b) addresses (still_there q.heap a) chain,
          ),
        ),
        (none_stay a (update_self q.heap a none), freed),
        λ c e. none_stay c (emptied c e),
        λ c (ne, others). kept c others ∙ update_ne q.heap a c none ne,
      )
    where
      emptied : (c : ℕ) → q.heap c ≡ none → update q.heap a none c ≡ none
      emptied c =
          update_elim (λ j h. q.heap j ≡ none → h ≡ none) q.heap a none (λ h. refl) (λ j ne h. h) c

  -- When both threads rest, the destructor's loop ends after one round for each value and one more,
  -- uses no null pointer and no deleted node, and leaves the head null; the nodes that the head led to
  -- are deleted, and no other node is.
  pub destroy-ends :
      (q : Queue T) (xs : List T)
      → Represents q [] xs
      → q.producer ≡ Producer.resting
      → AllFreed q (destroy (suc (suc (length xs))) q.head q)
  destroy-ends q xs r e =
      let last = subst (λ p. Working p q.heap q.fresh q.tail r.last) e r.working in
      subst (λ p. AllFreed q (destroy (suc (suc (length xs))) p q)) (sym r.at_head)
        (destroy-Segment xs r.start q r.at_head
          (subst (Segment q.heap r.start xs q.tail) last r.segment))
