-- ===== src/LockFreeQueue/Steps.antt =====
-- What each step of the two threads does to the values in the queue.
use mathlib.Core.Path.{subst}
use concurrency_in_action.Common.{
  ◌≡◌, refl, sym, ap, ◌∙◌, Bool, true, false, Option, none, some, List, [], ◌∷◌, ◌++◌, arith,
  update, update_ne,
}
use concurrency_in_action.Nodes.{Node, Pointer, new_node, is_at}
use concurrency_in_action.Nodes.Segment.{
  Segment, Segment-le, Segment-last, Segment-update_below, Segment-update_last, Segment-extended,
  is_at-Segment, is_empty,
}
use concurrency_in_action.LockFreeQueue.{
  Producer, filling, linking, publishing, Consumer, testing, moving, reading, deleting, Queue,
  Event, silent, pushed, popped, Op, starts_push, pushes_on, pops_on, start_push, continue_push,
  after_test, continue_pop, step,
}
use concurrency_in_action.LockFreeQueue.Invariant.{
  Working, Taking, Represents, Taking-update, Taking-append, Working-update, start_push-Represents,
}

module _ {ℓ} {T : Type ℓ} where
  -- The value that an event puts into the queue, and the one that it hands out.
  abbrev pub put_in : Event T → List T
  put_in silent = []
  put_in (pushed v) = v ∷ []
  put_in (popped r) = []

  abbrev pub taken_out : Event T → List T
  taken_out silent = []
  taken_out (pushed v) = []
  taken_out (popped none) = []
  taken_out (popped (some x)) = x ∷ []

  abbrev pub Follows : Option (Event T × Queue T) → (hand xs : List T) → Type ℓ
  Follows o hand xs =
      (event : Event T) × (q' : Queue T) × (hand' : List T) × (xs' : List T) × (o
        ≡ some (event, q'))
      × Represents q' hand' xs'
      × ((hand ++ xs) ++ put_in event ≡ taken_out event ++ (hand' ++ xs'))

  pub append_nil : (xs : List T) → xs ++ [] ≡ xs
  append_nil [] = refl
  append_nil (x ∷ xs) = ap (λ ys. x ∷ ys) (append_nil xs)

  pub append_assoc : (xs ys zs : List T) → (xs ++ ys) ++ zs ≡ xs ++ (ys ++ zs)
  append_assoc [] ys zs = refl
  append_assoc (x ∷ xs) ys zs = ap (λ l. x ∷ l) (append_assoc xs ys zs)

  unchanged :
      (q : Queue T) (hand xs : List T) → Represents q hand xs → Follows (some (silent, q)) hand xs
  unchanged q hand xs r = (silent, q, hand, xs, refl, r, append_nil (hand ++ xs))

  -- A write to the last node, and the next step of the push.
  write_last :
      (q : Queue T) (hand xs : List T) (r : Represents q hand xs) (new : Node T) (p : Producer T)
      → Working p (update q.heap q.tail (some new)) q.fresh q.tail new
      → Represents (record q { heap = update q.heap q.tail (some new); producer = p }) hand xs
  write_last q hand xs r new p w = record {
    start = r.start;
    last = new;
    at_head = r.at_head;
    segment = Segment-update_last q.heap r.start xs q.tail r.last new r.segment;
    below = r.below;
    working = w;
    taking =
        Taking-update q.consumer q.heap r.start q.tail (some new) hand xs
          (Segment-le q.heap r.start xs q.tail r.last r.segment) r.taking;
  }

  continue_push-Follows :
      (p : Producer T) (q : Queue T) (hand xs : List T)
      → p ≡ q.producer
      → Represents q hand xs
      → Follows (continue_push p q) hand xs
  unfolding continue_push
  continue_push-Follows Producer.resting q hand xs e r = unchanged q hand xs r
  continue_push-Follows (filling v p a) q hand xs e r =
      let (at, lt, below, made, last) =
        subst (λ s. Working s q.heap q.fresh q.tail r.last) (sym e) r.working in
      let here = Segment-last q.heap r.start xs q.tail r.last r.segment in
      let new : Node T = record { data_ = some v; next = none } in
      (
        silent,
        record q { heap = update q.heap q.tail (some new); producer = linking v p q.tail },
        hand,
        xs,
        rw (at, here, last),
        write_last q hand xs r new (linking v p q.tail)
            (refl, lt, below, update_ne q.heap q.tail p (some new) (omega arith) ∙ made, refl),
        append_nil (hand ++ xs),
      )
  continue_push-Follows (linking v p a) q hand xs e r =
      let (at, lt, below, made, last) =
        subst (λ s. Working s q.heap q.fresh q.tail r.last) (sym e) r.working in
      let here = Segment-last q.heap r.start xs q.tail r.last r.segment in
      let new : Node T = record { data_ = some v; next = some p } in
      (
        silent,
        record q { heap = update q.heap q.tail (some new); producer = publishing v p q.tail },
        hand,
        xs,
        rw (at, here, last),
        write_last q hand xs r new (publishing v p q.tail)
            (refl, lt, below, update_ne q.heap q.tail p (some new) (omega arith) ∙ made, refl),
        append_nil (hand ++ xs),
      )
  continue_push-Follows (publishing v p a) q hand xs e r =
      let (at, lt, below, made, last) =
        subst (λ s. Working s q.heap q.fresh q.tail r.last) (sym e) r.working in
      (
        pushed v,
        record q { tail = p; producer = Producer.resting },
        hand,
        xs ++ (v ∷ []),
        refl,
        record {
          start = r.start;
          last = new_node;
          at_head = r.at_head;
          segment =
              Segment-extended q.heap r.start xs q.tail p v new_node lt made
                (subst (Segment q.heap r.start xs q.tail) last r.segment);
          below = below;
          working = refl;
          taking = Taking-append q.consumer q.heap r.start hand xs v r.taking;
        },
        append_assoc hand xs (v ∷ []),
      )

  -- The consumer alone goes on.
  goes_on :
      (q : Queue T) (hand xs : List T) (r : Represents q hand xs) (c : Consumer T)
      → Taking c q.heap r.start hand xs
      → Represents (record q { consumer = c }) hand xs
  goes_on q hand xs r c t = record {
    start = r.start;
    last = r.last;
    at_head = r.at_head;
    segment = r.segment;
    below = r.below;
    working = r.working;
    taking = t;
  }

  after_test-Follows :
      (b : Bool) (a : Pointer) (q : Queue T) (hand xs : List T) (r : Represents q hand xs)
      → a ≡ some r.start
      → hand ≡ []
      → b ≡ is_empty xs
      → Follows (some (after_test b a q)) hand xs
  after_test-Follows true a q hand xs r e none_held b = (
    popped none,
    record q { consumer = Consumer.resting },
    hand,
    xs,
    refl,
    goes_on q hand xs r Consumer.resting none_held,
    append_nil (hand ++ xs),
  )
  after_test-Follows false a q hand xs r e none_held b = (
    silent,
    record q { consumer = moving a },
    hand,
    xs,
    refl,
    goes_on q hand xs r (moving a) (none_held, e, sym b),
    append_nil (hand ++ xs),
  )

  move-Follows :
      (a : Pointer) (q : Queue T) (xs : List T)
      → (r : Represents q [] xs) → a ≡ some r.start
      → is_empty xs ≡ false
      → Follows (continue_pop (moving a) q) [] xs
  unfolding continue_pop
  move-Follows a q [] r e nonempty = absurd (cc)
  move-Follows a q (x ∷ xs) r e nonempty =
      let (b, here, lt, rest) = r.segment in
      (
        silent,
        record q { head = some b; consumer = reading a },
        x ∷ [],
        xs,
        rw (e, here),
        record {
          start = b;
          last = r.last;
          at_head = refl;
          segment = rest;
          below = r.below;
          working = r.working;
          taking = (r.start, x, record { data_ = some x; next = some b }, e, lt, here, refl, refl);
        },
        append_nil (x ∷ xs),
      )

  continue_pop-Follows :
      (c : Consumer T) (q : Queue T) (hand xs : List T)
      → c ≡ q.consumer
      → Represents q hand xs
      → Follows (continue_pop c q) hand xs
  unfolding continue_pop
  continue_pop-Follows Consumer.resting q hand xs e r = (
    silent,
    record q { consumer = testing q.head },
    hand,
    xs,
    refl,
    goes_on q hand xs r (testing q.head)
        (subst (λ s. Taking s q.heap r.start hand xs) (sym e) r.taking, r.at_head),
    append_nil (hand ++ xs),
  )
  continue_pop-Follows (testing a) q hand xs e r =
      let (none_held, at) = subst (λ s. Taking s q.heap r.start hand xs) (sym e) r.taking in
      after_test-Follows (is_at a q.tail) a q hand xs r at none_held
        (ap (λ p. is_at p q.tail) at ∙ is_at-Segment q.heap r.start xs q.tail r.last r.segment)
  continue_pop-Follows (moving a) q [] xs e r =
      let (none_held, at, nonempty) = subst (λ s. Taking s q.heap r.start [] xs) (sym e) r.taking in
      move-Follows a q xs r at nonempty
  continue_pop-Follows (moving a) q (h ∷ hand) xs e r =
      let (none_held, at, nonempty) =
        subst (λ s. Taking s q.heap r.start (h ∷ hand) xs) (sym e) r.taking in
      absurd (cc)
  continue_pop-Follows (reading a) q hand xs e r =
      let (c, x, n, at, lt, here, value, held) =
        subst (λ s. Taking s q.heap r.start hand xs) (sym e) r.taking in
      (
        silent,
        record q { consumer = deleting a n.data_ },
        hand,
        xs,
        rw (at, here),
        goes_on q hand xs r (deleting a n.data_) (c, x, n, at, lt, here, value, held),
        append_nil (hand ++ xs),
      )
  continue_pop-Follows (deleting a res) q hand xs e r =
      let (c, x, n, at, lt, here, value, held) =
        subst (λ s. Taking s q.heap r.start hand xs) (sym e) r.taking in
      (
        popped (some x),
        record q { heap = update q.heap c none; consumer = Consumer.resting },
        [],
        xs,
        rw (at, here, value),
        record {
          start = r.start;
          last = r.last;
          at_head = r.at_head;
          segment = Segment-update_below q.heap r.start xs q.tail r.last c none lt r.segment;
          below = r.below;
          working =
              Working-update q.producer q.heap q.fresh q.tail c r.last none
                (omega (arith, Segment-le q.heap r.start xs q.tail r.last r.segment)) r.working;
          taking = refl;
        },
        rw held (append_nil (x ∷ xs)),
      )

  pub step-Follows :
      (o : Op T) (q : Queue T) (hand xs : List T)
      → Represents q hand xs
      → Follows (step o q) hand xs
  unfolding step
  step-Follows (starts_push v) q hand xs r =
      unchanged (start_push v q.producer q) hand xs
        (start_push-Represents v q.producer q hand xs refl r)
  step-Follows pushes_on q hand xs r = continue_push-Follows q.producer q hand xs refl r
  step-Follows pops_on q hand xs r = continue_pop-Follows q.consumer q hand xs refl r
