-- ===== src/GuiTasks/OneTask.antt =====
-- The task at the front is never removed.
use concurrency_in_action.Common.{
  ◌≡◌, refl, ap, ◌∙◌, ◌⊎◌, inl, inr, Option, none, some, List, [], ◌∷◌, ◌++◌,
}
use concurrency_in_action.GuiTasks.{
  Gui, Program, running, terminated, Op, posts, turns, gui_thread_turn, post_task_for_gui_thread,
  initial, step, run, executed_by,
}

module _ {ℓ} {F : Type ℓ} where
  abbrev all_some : List F → List (Option F)
  all_some [] = []
  all_some (f ∷ fs) = some f ∷ all_some fs

  all_some-append : (fs : List F) (f : F) → all_some fs ++ (some f ∷ []) ≡ all_some (fs ++ (f ∷ []))
  all_some-append [] f = refl
  all_some-append (g ∷ fs) f = ap (λ l. some g ∷ l) (all_some-append fs f)

  -- No function was called, or the first one posted, once.
  abbrev pub IsFirst : List F → List F → Type ℓ
  IsFirst fs called =
      (called ≡ []) ⊎ ((f : F) × (rest : List F) × (fs ≡ f ∷ rest) × (called ≡ f ∷ []))

  -- What holds after the functions `fs` were posted: none was called, or the first one, and its
  -- empty task is still at the front.
  abbrev Inv : List F → Program F → Type ℓ
  Inv fs (running g) =
      ((g.tasks ≡ all_some fs) × (g.executed ≡ []))
      ⊎ ((f : F) × (rest : List F) × (fs ≡ f ∷ rest)
          × (g.tasks ≡ none ∷ all_some rest)
          × (g.executed ≡ f ∷ []))
  Inv fs (terminated called) = IsFirst fs called

  later : (fs gs called : List F) → IsFirst fs called → IsFirst (fs ++ gs) called
  later fs gs called (inl e) = inl e
  later fs gs called (inr (f, rest, p, e)) = inr (f, rest ++ gs, ap (λ l. l ++ gs) p, e)

  post-Inv :
      (f : F) (fs : List F) (g : Gui F)
      → Inv fs (running g)
      → Inv (fs ++ (f ∷ [])) (running (post_task_for_gui_thread f g))
  unfolding post_task_for_gui_thread
  post-Inv f fs g (inl (t, e)) = inl (ap (λ l. l ++ (some f ∷ [])) t ∙ all_some-append fs f, e)
  post-Inv f fs g (inr (h, rest, p, t, e)) = inr (
    h,
    rest ++ (f ∷ []),
    ap (λ l. l ++ (f ∷ [])) p,
    ap (λ l. l ++ (some f ∷ [])) t ∙ ap (λ l. none ∷ l) (all_some-append rest f),
    e,
  )

  turn-Inv : (fs : List F) (g : Gui F) → Inv fs (running g) → Inv fs (gui_thread_turn g)
  unfolding gui_thread_turn
  turn-Inv [] g (inl (t, e)) = rw t (inl (refl, e))
  turn-Inv (f ∷ fs) g (inl (t, e)) = rw t (inr (f, fs, refl, refl, ap (λ l. l ++ (f ∷ [])) e))
  turn-Inv fs g (inr (f, rest, p, t, e)) = rw t (inr (f, rest, p, e))

  abbrev pub posted : List (Op F) → List F
  posted [] = []
  posted (posts f ∷ os) = f ∷ posted os
  posted (turns ∷ os) = posted os

  append_nil : (fs : List F) → fs ≡ fs ++ []
  append_nil [] = refl
  append_nil (f ∷ fs) = ap (λ l. f ∷ l) (append_nil fs)

  append_assoc : (xs : List F) (f : F) (ys : List F) → (xs ++ (f ∷ [])) ++ ys ≡ xs ++ (f ∷ ys)
  append_assoc [] f ys = refl
  append_assoc (x ∷ xs) f ys = ap (λ l. x ∷ l) (append_assoc xs f ys)

  Inv-IsFirst : (fs : List F) (p : Program F) → Inv fs p → IsFirst fs (executed_by p)
  Inv-IsFirst fs (running g) (inl (t, e)) = inl e
  Inv-IsFirst fs (running g) (inr (f, rest, p, t, e)) = inr (f, rest, p, e)
  Inv-IsFirst fs (terminated called) h = h

  run_terminated :
      (os : List (Op F)) (called : List F) → run os (terminated called) ≡ terminated called
  unfolding run step
  run_terminated [] called = refl
  run_terminated (o ∷ os) called = run_terminated os called

  run-IsFirst :
      (os : List (Op F)) (fs : List F) (p : Program F)
      → Inv fs p
      → IsFirst (fs ++ posted os) (executed_by (run os p))
  unfolding run step
  run-IsFirst [] fs p h = later fs [] (executed_by p) (Inv-IsFirst fs p h)
  run-IsFirst (o ∷ os) fs (terminated called) h =
      rw (run_terminated os called) (later fs (posted (o ∷ os)) called h)
  run-IsFirst (posts f ∷ os) fs (running g) h =
      rw (← append_assoc fs f (posted os)) (run-IsFirst os (fs ++ (f ∷ [])) _ (post-Inv f fs g h))
  run-IsFirst (turns ∷ os) fs (running g) h = run-IsFirst os fs _ (turn-Inv fs g h)

  -- Whatever is posted and however often the loop turns, the GUI thread calls no function, or only
  -- the one posted first, once.
  pub run-OnlyFirst :
      (os : List (Op F)) → IsFirst (posted os) (executed_by (run os (running initial)))
  run-OnlyFirst os = run-IsFirst os [] (running initial) (inl (refl, refl))
