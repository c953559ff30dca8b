-- ===== src/ThreadSafeQueueRevised/Fifo.antt =====
-- Values come out in the order in which they were pushed, as they were pushed.
use concurrency_in_action.Common.{
  true, false, ◌≢◌, ℕ, zero, suc, ◌≤◌, ◌<◌, ◌≡◌, refl, sym, ap, ◌∙◌, Option, none, some, List, [],
  ◌∷◌, ◌++◌, arith, update, update_self, update_ne,
}
use concurrency_in_action.Condition.{notify_one}
use concurrency_in_action.ThreadSafeQueueRevised.{
  empty, is_nil, Store, Queue, Overload, by_reference, by_pointer, Op, pushes, waits, resumes,
  tries, spurious, hand_out, push, wait_on, try_on, wait_and_pop, resume_as, resume, try_pop, step,
  emit, run,
}

module _ {ℓ} {T : Type ℓ} where
  -- The pointers are to different objects, in the order in which those were made, from `low` on,
  -- and the objects hold the values.
  abbrev pub Holds : (ℕ → T) → ℕ → ℕ → List ℕ → List T → Type ℓ
  Holds object fresh low [] [] = (low ≤ fresh) × Unit {ℓ}
  Holds object fresh low (a ∷ ps) (x ∷ xs) =
      (low ≤ a) × (object a ≡ x) × Holds object fresh (suc a) ps xs
  Holds object fresh low [] (x ∷ xs) = ⊥ × Unit {ℓ}
  Holds object fresh low (a ∷ ps) [] = ⊥ × Unit {ℓ}

  Holds-le :
      (object : ℕ → T) (fresh low : ℕ) (ps : List ℕ) (xs : List T)
      → Holds object fresh low ps xs
      → low ≤ fresh
  Holds-le object fresh low [] [] h = h.0
  Holds-le object fresh low (a ∷ ps) (x ∷ xs) (le, e, rest) =
      omega (arith, Holds-le object fresh (suc a) ps xs rest)
  Holds-le object fresh low [] (x ∷ xs) h = absurd h.0
  Holds-le object fresh low (a ∷ ps) [] h = absurd h.0

  -- A new object behind them.
  Holds-append :
      (object : ℕ → T) (fresh low : ℕ) (ps : List ℕ) (xs : List T) (v : T)
      → Holds object fresh low ps xs
      → Holds (update object fresh v) (suc fresh) low (ps ++ (fresh ∷ [])) (xs ++ (v ∷ []))
  Holds-append object fresh low [] [] v h = (h.0, update_self object fresh v, (omega arith, tt))
  Holds-append object fresh low (a ∷ ps) (x ∷ xs) v (le, e, rest) = (
    le,
    update_ne object fresh a v (omega (arith, Holds-le object fresh (suc a) ps xs rest)) ∙ e,
    Holds-append object fresh (suc a) ps xs v rest,
  )
  Holds-append object fresh low [] (x ∷ xs) v h = absurd h.0
  Holds-append object fresh low (a ∷ ps) [] v h = absurd h.0

  -- An older object does not matter.
  Holds-update_below :
      (object : ℕ → T) (fresh low c : ℕ) (ps : List ℕ) (xs : List T) (v : T)
      → c < low
      → Holds object fresh low ps xs
      → Holds (update object c v) fresh low ps xs
  Holds-update_below object fresh low c [] [] v l h = h
  Holds-update_below object fresh low c (a ∷ ps) (x ∷ xs) v l (le, e, rest) = (
    le,
    update_ne object c a v (omega arith) ∙ e,
    Holds-update_below object fresh (suc a) c ps xs v (omega arith) rest,
  )
  Holds-update_below object fresh low c [] (x ∷ xs) v l h = absurd h.0
  Holds-update_below object fresh low c (a ∷ ps) [] v l h = absurd h.0

  abbrev pub Represents : Store T × Queue → List T → Type ℓ
  Represents (s, q) xs = (low : ℕ) × Holds s.object s.fresh low q.data_queue xs

  -- `empty` tells whether a value is left.
  empty_tells :
      (s : Store T) (q : Queue) (xs : List T)
      → Represents (s, q) xs
      → ((empty q ≡ true) → xs ≡ []) × ((empty q ≡ false) → xs ≢ [])
  unfolding empty
  empty_tells s q xs (low, h) = by_pointers low q.data_queue xs h
    where
      by_pointers :
          (low : ℕ) (ps : List ℕ) (xs : List T)
          → Holds s.object s.fresh low ps xs
          → ((is_nil ps ≡ true) → xs ≡ []) × ((is_nil ps ≡ false) → xs ≢ [])
      by_pointers low [] [] h = (λ e. refl, λ e. absurd (cc))
      by_pointers low (a ∷ ps) (x ∷ xs) h = (λ e. absurd (cc), λ e f. cc)
      by_pointers low [] (x ∷ xs) h = absurd h.0
      by_pointers low (a ∷ ps) [] h = absurd h.0

module _ {ℓ} {T : Type ℓ} (moved : T → T) where
  abbrev Follows : Option T × (Store T × Queue) → List T → List T → Type ℓ
  Follows (value, p) xs new = (xs' : List T) × Represents p xs' × (xs ++ new ≡ emit moved value xs')

  append_nil : (xs : List T) → xs ++ [] ≡ xs
  append_nil [] = refl
  append_nil (x ∷ xs) = ap (λ ys. x ∷ ys) (append_nil xs)

  hand_out-Holds :
      (o : Overload) (s : Store T) (a : ℕ) (ps : List ℕ) (xs : List T)
      → Holds s.object s.fresh (suc a) ps xs
      → Holds (hand_out moved o a s).object (hand_out moved o a s).fresh (suc a) ps xs
  hand_out-Holds by_reference s a ps xs h =
      Holds-update_below s.object s.fresh (suc a) a ps xs (moved (s.object a)) (omega arith) h
  hand_out-Holds by_pointer s a ps xs h = h

  wait_on-Follows :
      (o : Overload) (ps : List ℕ) (xs : List T) (s : Store T) (q : Queue) (low : ℕ)
      → ps ≡ q.data_queue
      → Holds s.object s.fresh low ps xs
      → Follows (wait_on moved o ps (s, q)) xs []
  wait_on-Follows o [] [] s q low e h = ([], (low, rw (← e) h), refl)
  wait_on-Follows o (a ∷ ps) (x ∷ xs) s q low e (le, at, rest) = (
    xs,
    (suc a, hand_out-Holds o s a ps xs rest),
    append_nil (x ∷ xs) ∙ ap (λ y. y ∷ xs) (sym at),
  )
  wait_on-Follows o [] (x ∷ xs) s q low e h = absurd h.0
  wait_on-Follows o (a ∷ ps) [] s q low e h = absurd h.0

  try_on-Follows :
      (o : Overload) (ps : List ℕ) (xs : List T) (s : Store T) (q : Queue) (low : ℕ)
      → ps ≡ q.data_queue
      → Holds s.object s.fresh low ps xs
      → Follows (try_on moved o ps (s, q)) xs []
  try_on-Follows o [] [] s q low e h = ([], (low, rw (← e) h), refl)
  try_on-Follows o (a ∷ ps) (x ∷ xs) s q low e h = wait_on-Follows o (a ∷ ps) (x ∷ xs) s q low e h
  try_on-Follows o [] (x ∷ xs) s q low e h = absurd h.0
  try_on-Follows o (a ∷ ps) [] s q low e h = absurd h.0

  resume_as-Follows :
      (n : ℕ) (o : Overload) (xs : List T) (s : Store T) (q : Queue)
      → Represents (s, q) xs
      → Follows (resume_as moved n o (s, q)) xs []
  resume_as-Follows zero o xs s q r = (xs, r, append_nil xs)
  resume_as-Follows (suc n) o xs s q (low, h) = wait_on-Follows o q.data_queue xs s _ low refl h

  abbrev pub pushed_by : Op T → List T
  pushed_by (pushes v) = v ∷ []
  pushed_by (waits o) = []
  pushed_by (resumes o) = []
  pushed_by (tries o) = []
  pushed_by spurious = []

  step-Follows :
      (op : Op T) (s : Store T) (q : Queue) (xs : List T)
      → Represents (s, q) xs
      → Follows (step moved op (s, q)) xs (pushed_by op)
  unfolding step push wait_and_pop resume try_pop notify_one
  step-Follows (pushes v) s q xs (low, h) =
      (xs ++ (v ∷ []), (low, Holds-append s.object s.fresh low q.data_queue xs v h), refl)
  step-Follows (waits o) s q xs (low, h) = wait_on-Follows o q.data_queue xs s q low refl h
  step-Follows (resumes o) s q xs r = resume_as-Follows q.data_cond.woken o xs s q r
  step-Follows (tries o) s q xs (low, h) = try_on-Follows o q.data_queue xs s q low refl h
  step-Follows spurious s q xs r = (xs, r, append_nil xs)

  abbrev pub pushed : List (Op T) → List T
  pushed [] = []
  pushed (op ∷ ops) = pushed_by op ++ pushed ops

  append_assoc : (xs ys zs : List T) → xs ++ (ys ++ zs) ≡ (xs ++ ys) ++ zs
  append_assoc [] ys zs = refl
  append_assoc (x ∷ xs) ys zs = ap (λ l. x ∷ l) (append_assoc xs ys zs)

  emit-append : (o : Option T) (xs ys : List T) → emit moved o xs ++ ys ≡ emit moved o (xs ++ ys)
  emit-append none xs ys = refl
  emit-append (some x) xs ys = refl

  -- From a state in which the pointers of the queue are to different objects that hold `xs`, any
  -- operations hand out, and then leave in the queue, the values `xs` and then those pushed, in that
  -- order, each as it was pushed, whether pops move it out or share it.
  pub run-Fifo_revised :
      (ops : List (Op T)) (s : Store T) (q : Queue) (xs : List T)
      → Represents (s, q) xs
      → (xs' : List T) × Represents (run moved ops (s, q)).1 xs'
        × (xs ++ pushed ops ≡ (run moved ops (s, q)).0 ++ xs')
  unfolding run
  run-Fifo_revised [] s q xs r = (xs, r, append_nil xs)
  run-Fifo_revised (op ∷ ops) s q xs r =
      let (xs1, r1, first) = step-Follows op s q xs r in
      let (value, p) = step moved op (s, q) in
      let (xs', r', order) = run-Fifo_revised ops p.0 p.1 xs1 r1 in
      (
        xs',
        r',
        append_assoc xs (pushed_by op) (pushed ops)
            ∙ ap (λ l. l ++ pushed ops) first
            ∙ emit-append value xs1 (pushed ops)
            ∙ ap (emit moved value) order
            ∙ sym (emit-append value (run moved ops p).0 xs'),
      )
