-- ===== src/ThreadSafeQueue/Wakeups.antt =====
-- No wake-up is lost.
use concurrency_in_action.Common.{
  ℕ, zero, suc, ◌≤◌, ◌<◌, ◌≡◌, refl, ap, List, [], ◌∷◌, arith, length, length-append,
}
use concurrency_in_action.Condition.{Condition, notify_one}
use concurrency_in_action.ThreadSafeQueue.{
  ThreadSafeQueue, new_queue, test, resume_as, take, Op, pushes, waits, resumes, spurious, tries,
  step, run,
}

notified :
    (c : Condition) (n : ℕ)
    → (0 < c.asleep → n ≤ c.woken)
    → 0 < (notify_one c).asleep
    → suc n ≤ (notify_one c).woken
unfolding notify_one
notified c n h p = ground (arith, h)

module _ {ℓ} {A : Type ℓ} where
  -- If a thread sleeps, every value in the queue has a thread that has been woken for it.
  abbrev pub NoneLost : ThreadSafeQueue A → Type 0
  NoneLost q = 0 < q.data_cond.asleep → length q.data_queue ≤ q.data_cond.woken

  test-NoneLost :
      (xs : List A) (c : Condition)
      → (0 < c.asleep → length xs ≤ suc c.woken)
      → NoneLost (test xs (record { data_queue = xs; data_cond = c })).0
  test-NoneLost [] c h = λ _. omega arith
  test-NoneLost (v ∷ rest) c h = λ p. omega (arith, h p)

  resume_as-NoneLost :
      (n : ℕ) (q : ThreadSafeQueue A)
      → q.data_cond.woken ≡ n
      → NoneLost q
      → NoneLost (resume_as n q).0
  resume_as-NoneLost zero q e h = h
  resume_as-NoneLost (suc n) q e h = test-NoneLost q.data_queue _ (λ p. omega (arith, h p))

  take-NoneLost :
      (xs : List A) (q : ThreadSafeQueue A)
      → q.data_queue ≡ xs
      → NoneLost q
      → NoneLost (take xs q).0
  take-NoneLost [] q e h = h
  take-NoneLost (v ∷ rest) q e h = λ p. omega (arith, h p, ap length e)

  step-NoneLost : (op : Op A) (q : ThreadSafeQueue A) → NoneLost q → NoneLost (step op q).0
  unfolding step
  step-NoneLost (pushes v) q h =
      λ p. omega (arith, notified q.data_cond _ h p, length-append q.data_queue (v ∷ []))
  step-NoneLost waits q h = test-NoneLost q.data_queue q.data_cond (λ p. omega (arith, h p))
  step-NoneLost resumes q h = resume_as-NoneLost q.data_cond.woken q refl h
  step-NoneLost spurious q h = λ p. omega (arith, notified q.data_cond _ h p)
  step-NoneLost tries q h = take-NoneLost q.data_queue q refl h

  run-NoneLost : (ops : List (Op A)) (q : ThreadSafeQueue A) → NoneLost q → NoneLost (run ops q).0
  unfolding run
  run-NoneLost [] q h = h
  run-NoneLost (op ∷ ops) q h = run-NoneLost ops (step op q).0 (step-NoneLost op q h)

  -- Whatever the threads do, in any order and with spurious wake-ups, from a new queue on: as long
  -- as a thread sleeps in `WaitAndPop`, at least as many threads have been woken, and are on their
  -- way to test the queue, as there are values in it.
  pub no_lost_wakeup :
      (ops : List (Op A))
      → 0 < (run ops new_queue).0.data_cond.asleep
      → length (run ops new_queue).0.data_queue ≤ (run ops new_queue).0.data_cond.woken
  no_lost_wakeup ops = run-NoneLost ops new_queue (λ p. absurd (omega arith))
