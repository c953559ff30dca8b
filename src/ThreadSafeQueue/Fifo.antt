-- ===== src/ThreadSafeQueue/Fifo.antt =====
-- The queue hands out what was pushed, in order, once each.
use mathlib.Core.List.{append-nil, append_assoc}
use concurrency_in_action.Common.{
  ℕ, zero, suc, ◌≡◌, refl, ap, sym, ◌∙◌, Option, none, some, List, [], ◌∷◌, ◌++◌,
}
use concurrency_in_action.ThreadSafeQueue.{
  ThreadSafeQueue, test, resume_as, take, Op, pushes, waits, resumes, spurious, tries, step, run,
  cons_some, pushed,
}

module _ {ℓ} {A : Type ℓ} where
  -- What a step leaves in the queue, behind what it took out.
  abbrev left : ThreadSafeQueue A × Option A → List A
  left (q, out) = cons_some out q.data_queue

  test-left :
      (xs : List A) (q : ThreadSafeQueue A) → q.data_queue ≡ xs → left (test xs q) ≡ q.data_queue
  test-left [] q e = refl
  test-left (v ∷ rest) q e = sym e

  resume_as-left : (n : ℕ) (q : ThreadSafeQueue A) → left (resume_as n q) ≡ q.data_queue
  resume_as-left zero q = refl
  resume_as-left (suc n) q = test-left q.data_queue _ refl

  take-left :
      (xs : List A) (q : ThreadSafeQueue A) → q.data_queue ≡ xs → left (take xs q) ≡ q.data_queue
  take-left [] q e = refl
  take-left (v ∷ rest) q e = sym e

  step-left :
      (op : Op A) (q : ThreadSafeQueue A) → left (step op q) ≡ q.data_queue ++ pushed (op ∷ [])
  unfolding step
  step-left (pushes v) q = refl
  step-left waits q = test-left q.data_queue q refl ∙ sym (append-nil _)
  step-left resumes q = resume_as-left q.data_cond.woken q ∙ sym (append-nil _)
  step-left spurious q = sym (append-nil _)
  step-left tries q = take-left q.data_queue q refl ∙ sym (append-nil _)

  pushed-cons : (op : Op A) (ops : List (Op A)) → pushed (op ∷ ops) ≡ pushed (op ∷ []) ++ pushed ops
  pushed-cons (pushes v) ops = refl
  pushed-cons _ ops = refl

  cons_some-append : (o : Option A) (xs ys : List A) → cons_some o (xs ++ ys) ≡ cons_some o xs ++ ys
  cons_some-append none xs ys = refl
  cons_some-append (some x) xs ys = refl

  -- What is in the queue, followed by what the steps push, is what they pop, in the same order,
  -- followed by what is in the queue at the end: nothing is lost, made up, doubled or overtaken.
  pub run-fifo :
      (ops : List (Op A)) (q : ThreadSafeQueue A)
      → q.data_queue ++ pushed ops ≡ (run ops q).1 ++ (run ops q).0.data_queue
  unfolding run
  run-fifo [] q = append-nil _
  run-fifo (op ∷ ops) q =
      ap (◌++◌ q.data_queue) (pushed-cons op ops)
      ∙ sym (append_assoc q.data_queue (pushed (op ∷ [])) (pushed ops))
      ∙ ap (λ xs. xs ++ pushed ops) (sym (step-left op q))
      ∙ sym (cons_some-append (step op q).1 (step op q).0.data_queue (pushed ops))
      ∙ ap (cons_some (step op q).1) (run-fifo ops (step op q).0)
      ∙ cons_some-append (step op q).1 _ _
