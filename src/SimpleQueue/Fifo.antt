-- ===== src/SimpleQueue/Fifo.antt =====
-- The nodes implement a first-in-first-out list, whatever the order of the threads' steps.
use mathlib.Core.Path.{subst}
use concurrency_in_action.Common.{
  update, update_self, update_ne, ℕ, zero, suc, ◌<◌, ◌≡◌, refl, sym, ap, ◌∙◌, Option, none, some,
  List, [], ◌∷◌, ◌++◌, arith,
}
use concurrency_in_action.SimpleQueue.{
  Holder, nobody, found, missed, found_if, Queue, new_queue, test, link, unlink, push, pop_head,
  start_pop, resume, finish_pop, give_up, sleep, Op, pushes, starts_pop, resumes, finishes_pop,
  gives_up, sleeps, step, emit, run,
}
use concurrency_in_action.Nodes.{Node, new_node}
use concurrency_in_action.Nodes.Segment.{
  Segment, Segment-last, Segment-update_above, Segment-update_below, Segment-update_last,
  Segment-extended, is_at-Segment, is_empty,
}

module _ {ℓ} {T : Type ℓ} where
  -- A thread that found data still has it.
  abbrev pub IsKept : Holder → List T → Type 0
  IsKept found [] = ⊥
  IsKept found (x ∷ xs) = Unit
  IsKept nobody xs = Unit
  IsKept missed xs = Unit

  -- The queue holds `xs`: the invariants of the class's comment.
  pub record Represents (q : Queue T) (xs : List T) : Type ℓ where
    pub start : ℕ
    pub at_head : q.head ≡ some start
    pub segment : Segment q.heap start xs q.tail new_node
    pub below : q.tail < q.fresh
    pub kept : IsKept q.holder xs

  pub new_queue-Represents : Represents new_queue []
  new_queue-Represents = record {
    start = 0;
    at_head = refl;
    segment = (refl, refl);
    below = omega arith;
    kept = tt;
  }

  found_if-IsKept : (xs : List T) → IsKept (found_if (is_empty xs)) xs
  found_if-IsKept [] = tt
  found_if-IsKept (x ∷ xs) = tt

  IsKept-append : (h : Holder) (xs : List T) (v : T) → IsKept h xs → IsKept h (xs ++ (v ∷ []))
  IsKept-append nobody xs v k = tt
  IsKept-append missed xs v k = tt
  IsKept-append found [] v k = tt
  IsKept-append found (x ∷ xs) v k = tt

  -- The test finds data exactly if there is some.
  test-holder :
      (q : Queue T) (xs : List T) → Represents q xs → (test q).holder ≡ found_if (is_empty xs)
  test-holder q xs r =
      rw (r.at_head) (ap found_if (is_at-Segment q.heap r.start xs q.tail new_node r.segment))

  test-Represents : (q : Queue T) (xs : List T) → Represents q xs → Represents (test q) xs
  test-Represents q xs r = record {
    start = r.start;
    at_head = r.at_head;
    segment = r.segment;
    below = r.below;
    kept = rw (test-holder q xs r) (found_if-IsKept xs);
  }

  start_pop-Represents :
      (h : Holder) (q : Queue T) (xs : List T) → Represents q xs → Represents (start_pop h q) xs
  start_pop-Represents nobody q xs r = test-Represents q xs r
  start_pop-Represents found q xs r = r
  start_pop-Represents missed q xs r = r

  -- A queue with the same nodes, that no thread holds.
  released :
      (q q' : Queue T) (xs : List T)
      → Represents q xs
      → (q'.heap ≡ q.heap) × (q'.head ≡ q.head) × (q'.tail ≡ q.tail) × (q'.fresh ≡ q.fresh)
      → q'.holder ≡ nobody
      → Represents q' xs
  released q q' xs r (h, d, t, f) n = record {
    start = r.start;
    at_head = rw d r.at_head;
    segment = rw (h, t) r.segment;
    below = rw (t, f) r.below;
    kept = rw n tt;
  }

  resume-Represents :
      (h : Holder) (n : ℕ) (q : Queue T) (xs : List T)
      → h ≡ q.holder
      → Represents q xs
      → Represents (resume h n q) xs
  resume-Represents nobody zero q xs e r = r
  resume-Represents nobody (suc n) q xs e r =
      test-Represents _ xs (released q _ xs r (refl, refl, refl, refl) (sym e))
  resume-Represents found n q xs e r = r
  resume-Represents missed n q xs e r = r

  give_up-Represents :
      (h : Holder) (q : Queue T) (xs : List T) → Represents q xs → Represents (give_up h q) xs
  give_up-Represents nobody q xs r = r
  give_up-Represents found q xs r = r
  give_up-Represents missed q xs r = released q _ xs r (refl, refl, refl, refl) refl

  sleep-Represents :
      (h : Holder) (q : Queue T) (xs : List T) → Represents q xs → Represents (sleep h q) xs
  sleep-Represents nobody q xs r = r
  sleep-Represents found q xs r = r
  sleep-Represents missed q xs r = released q _ xs r (refl, refl, refl, refl) refl

  link-Segment :
      (heap : ℕ → Option (Node T)) (a : ℕ) (xs : List T) (e p : ℕ) (v : T)
      → e < p
      → Segment heap a xs e new_node
      → Segment
          (update
            (update heap p (some new_node))
            e
            (some (record { data_ = some v; next = some p })))
          a
          (xs ++ (v ∷ []))
          p
          new_node
  link-Segment heap a xs e p v h seg =
      let made = update heap p (some new_node) in
      let filled : Node T = record { data_ = some v; next = some p } in
      Segment-extended (update made e (some filled)) a xs e p v new_node h
        (update_ne made e p (some filled) (omega arith) ∙ update_self heap p (some new_node))
        (Segment-update_last made a xs e new_node filled
          (Segment-update_above heap a xs e new_node p (some new_node) h seg))

  push-Represents :
      (v : T) (q : Queue T) (xs : List T)
      → Represents q xs
      → (q' : Queue T) × (push v q ≡ some q') × Represents q' (xs ++ (v ∷ []))
  unfolding push
  push-Represents v q xs r = (
    link v q,
    rw (Segment-last q.heap r.start xs q.tail new_node r.segment),
    record {
      start = r.start;
      at_head = r.at_head;
      segment = link-Segment q.heap r.start xs q.tail q.fresh v r.below r.segment;
      below = omega arith;
      kept = IsKept-append q.holder xs v r.kept;
    },
  )

  -- What a step does to the list.
  abbrev pub Follows : Option (Option T × Queue T) → List T → List T → Type ℓ
  Follows o xs new =
      (value : Option T) × (q' : Queue T) × (xs' : List T) × (o ≡ some (value, q'))
      × Represents q' xs'
      × (xs ++ new ≡ emit value xs')

  append-nil : (xs : List T) → xs ++ [] ≡ xs
  append-nil [] = refl
  append-nil (x ∷ xs) = ap (λ ys. x ∷ ys) (append-nil xs)

  unchanged : (q : Queue T) (xs : List T) → Represents q xs → Follows (some (none, q)) xs []
  unchanged q xs r = (none, q, xs, refl, r, append-nil xs)

  finish_pop-Follows :
      (h : Holder) (q : Queue T) (xs : List T)
      → h ≡ q.holder
      → Represents q xs
      → Follows (finish_pop h q) xs []
  unfolding pop_head
  finish_pop-Follows nobody q xs e r = unchanged q xs r
  finish_pop-Follows missed q xs e r = unchanged q xs r
  finish_pop-Follows found q [] e r = absurd (subst (λ h. IsKept h []) (sym e) r.kept)
  finish_pop-Follows found q (x ∷ xs) e r =
      let (b, here, lt, rest) = r.segment in
      (
        some x,
        record (unlink r.start (record { data_ = some x; next = some b }) q) { holder = nobody },
        xs,
        rw (r.at_head, here),
        record {
          start = b;
          at_head = refl;
          segment = Segment-update_below q.heap b xs q.tail new_node r.start none lt rest;
          below = r.below;
          kept = tt;
        },
        append-nil (x ∷ xs),
      )

  abbrev pub pushed_by : Op T → List T
  pushed_by (pushes x) = x ∷ []
  pushed_by starts_pop = []
  pushed_by resumes = []
  pushed_by finishes_pop = []
  pushed_by gives_up = []
  pushed_by sleeps = []

  -- A step of any thread uses no null pointer and no deleted node; the queue then holds a list that
  -- follows from the one before: a pushed value at the end, or the first value handed out.
  step-Follows :
      (o : Op T) (q : Queue T) (xs : List T) → Represents q xs → Follows (step o q) xs (pushed_by o)
  unfolding step
  step-Follows (pushes x) q xs r =
      let (q', e, r') = push-Represents x q xs r in (none, q', xs ++ (x ∷ []), rw e, r', refl)
  step-Follows starts_pop q xs r = unchanged _ xs (start_pop-Represents q.holder q xs r)
  step-Follows resumes q xs r =
      unchanged _ xs (resume-Represents q.holder q.data_cond.woken q xs refl r)
  step-Follows finishes_pop q xs r = finish_pop-Follows q.holder q xs refl r
  step-Follows gives_up q xs r = unchanged _ xs (give_up-Represents q.holder q xs r)
  step-Follows sleeps q xs r = unchanged _ xs (sleep-Represents q.holder q xs r)

  abbrev pub pushed : List (Op T) → List T
  pushed [] = []
  pushed (o ∷ os) = pushed_by o ++ pushed os

  append_assoc : (xs ys zs : List T) → xs ++ (ys ++ zs) ≡ (xs ++ ys) ++ zs
  append_assoc [] ys zs = refl
  append_assoc (x ∷ xs) ys zs = ap (λ l. x ∷ l) (append_assoc xs ys zs)

  emit-append : (o : Option T) (xs ys : List T) → emit o xs ++ ys ≡ emit o (xs ++ ys)
  emit-append none xs ys = refl
  emit-append (some x) xs ys = refl

  -- From a queue that holds `xs`, for every order of the threads' steps: no null pointer and no
  -- deleted node is used, and the
  -- values handed out, with those still in the queue behind them, are those that were there and
  -- those pushed, in that order.
  pub run-Fifo :
      (os : List (Op T)) (q : Queue T) (xs : List T)
      → Represents q xs
      → (out : List T) × (q' : Queue T) × (xs' : List T) × (run os q ≡ some (out, q'))
        × Represents q' xs'
        × (xs ++ pushed os ≡ out ++ xs')
  unfolding run
  run-Fifo [] q xs r = ([], q, xs, refl, r, append-nil xs)
  run-Fifo (o ∷ os) q xs r =
      let (value, q1, xs1, e, r1, moved) = step-Follows o q xs r in
      let (out, q', xs', e', r', order) = run-Fifo os q1 xs1 r1 in
      (
        emit value out,
        q',
        xs',
        rw (e, e'),
        r',
        append_assoc xs (pushed_by o) (pushed os)
            ∙ ap (λ l. l ++ pushed os) moved
            ∙ emit-append value xs1 (pushed os)
            ∙ ap (emit value) order
            ∙ sym (emit-append value out xs'),
      )
