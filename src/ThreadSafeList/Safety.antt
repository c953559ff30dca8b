-- ===== src/ThreadSafeList/Safety.antt =====
-- No step of any thread uses a null pointer or a deleted node.
use mathlib.Core.Option.{some-injective}
use concurrency_in_action.Common.{
  ℕ, ◌≡◌, ◌⊎◌, refl, sym, ap, ◌∙◌, inl, inr, none, some, List, [], ◌∷◌, update, update_self,
  update_ne,
}
use concurrency_in_action.ThreadSafeList.{
  Job, for_each, find_first_if, remove_if, Local, resting, pushing, linking, starting, arrived,
  waiting, holding, unlinked, visiting, State, Outcome, went, blocked, fault, with_both, continue,
  call, Op, calls_push_front, calls, continues, step, after_step, run,
}
use concurrency_in_action.ThreadSafeList.Shape.{PointsTo}
use concurrency_in_action.ThreadSafeList.Writes.{apart}
use concurrency_in_action.ThreadSafeList.Invariant.{Placed, Inv, taken_keeps}
use concurrency_in_action.ThreadSafeList.Threads.{Keeps, stays, gives_back, lock_if-Keeps}
use concurrency_in_action.ThreadSafeList.Accesses.{
  known, other_one, loop_test-Keeps, visit-Keeps, link-Keeps, remove_or_go-Keeps, delete-Keeps,
}

module _ {ℓ} {T : Type ℓ} (s : State T) (t : ℕ) (i : Inv s) where
  lock_stays :
      (cur nx : ℕ)
      → s.locks nx ≡ some t
      → PointsTo (s.heap cur) nx
      → update s.locks cur none nx ≡ some t
  lock_stays cur nx l' (n, e, q) =
      let (m, x, f, d) = i.shape.valued cur nx (n, e, q) in
      update_ne s.locks cur nx none (λ z. apart s.heap s.fresh i.shape cur nx n m e f q (sym z))
      ∙ l'

  first_lock : (a : ℕ) → (a ≡ 0) ⊎ ⊥ → a ≡ 0
  first_lock a (inl h) = h
  first_lock a (inr h) = absurd h

  one_more : (cur nx a : ℕ) → (a ≡ nx) ⊎ (a ≡ cur) → (a ≡ cur) ⊎ (a ≡ nx)
  one_more cur nx a (inl h) = inr h
  one_more cur nx a (inr h) = inl h

  with_both-Keeps :
      (cur nx : ℕ) (j : Job T) → s.local t ≡ holding j cur nx → Keeps (with_both j t cur nx s)
  with_both-Keeps cur nx (for_each f) at =
      let (l, l', q) = known s t i (holding (for_each f) cur nx) at in
      gives_back s t cur (holding (for_each f) cur nx) (visiting (for_each f) nx) i at l
        (lock_stays cur nx l' q, i.shape.valued cur nx q) (λ a ne h. other_one s t i cur nx a ne h)
  with_both-Keeps cur nx (find_first_if p) at =
      let (l, l', q) = known s t i (holding (find_first_if p) cur nx) at in
      gives_back s t cur (holding (find_first_if p) cur nx) (visiting (find_first_if p) nx) i at l
        (lock_stays cur nx l' q, i.shape.valued cur nx q) (λ a ne h. other_one s t i cur nx a ne h)
  with_both-Keeps cur nx (remove_if p) at =
      let (l, l', q) = known s t i (holding (remove_if p) cur nx) at in
      let (m, x, e, d) = i.shape.valued cur nx q in
      rw e (remove_or_go-Keeps s t i cur nx p m m.data_ (s.heap cur) at e refl refl)

  pub continue-Keeps : (l : Local T) → s.local t ≡ l → Keeps (continue l t s)
  unfolding continue
  continue-Keeps (resting r) at = i
  continue-Keeps (pushing v) at =
      lock_if-Keeps s t 0 (pushing v) (linking v) (s.heap 0) (s.locks 0) i at refl refl
        i.shape.head_there (λ e. (update_self s.locks 0 (some t), tt)) (λ a h. first_lock a h)
  continue-Keeps (linking v) at = link-Keeps s t i v (s.heap 0) at refl
  continue-Keeps (starting j) at =
      lock_if-Keeps s t 0 (starting j) (arrived j 0) (s.heap 0) (s.locks 0) i at refl refl
        i.shape.head_there (λ e. (update_self s.locks 0 (some t), i.shape.head_there))
        (λ a h. first_lock a h)
  continue-Keeps (arrived j cur) at =
      let (locked, there) = known s t i (arrived j cur) at in
      loop_test-Keeps s t i cur j (s.heap cur) there.0.next at refl
        (λ m e. ap (λ r. r.next) (some-injective m there.0 (sym e ∙ there.1)))
  continue-Keeps (waiting j cur nx) at =
      let (l, q) = known s t i (waiting j cur nx) at in
      let (m, x, e, d) = i.shape.valued cur nx q in
      lock_if-Keeps s t nx (waiting j cur nx) (holding j cur nx) (s.heap nx) (s.locks nx) i at refl
        refl (m, e) (λ f. (taken_keeps s.locks nx t f cur t l, update_self s.locks nx (some t), q))
        (λ a h. one_more cur nx a h)
  continue-Keeps (holding j cur nx) at = with_both-Keeps cur nx j at
  continue-Keeps (visiting j nx) at = visit-Keeps s t i nx j (s.heap nx) at refl
  continue-Keeps (unlinked j cur nx) at = delete-Keeps s t i cur nx j (s.heap nx) at refl

  call-Inv : (l new : Local T) → s.local t ≡ l → Placed s.heap s.locks t new → Inv (call l new t s)
  call-Inv (resting r) new at h = stays s t (resting r) new i at h (λ a k. absurd k)
  call-Inv (pushing v) new at h = i
  call-Inv (linking v) new at h = i
  call-Inv (starting j) new at h = i
  call-Inv (arrived j cur) new at h = i
  call-Inv (waiting j cur nx) new at h = i
  call-Inv (holding j cur nx) new at h = i
  call-Inv (visiting j nx) new at h = i
  call-Inv (unlinked j cur nx) new at h = i

module _ {ℓ} {T : Type ℓ} where
  pub step-Keeps : (o : Op T) (s : State T) → Inv s → Keeps (step o s)
  unfolding step
  step-Keeps (calls_push_front t v) s i = call-Inv s t i (s.local t) (pushing v) refl tt
  step-Keeps (calls t j) s i = call-Inv s t i (s.local t) (starting j) refl tt
  step-Keeps (continues t) s i = continue-Keeps s t i (s.local t) refl

  abbrev pub Runs : Outcome T → Type ℓ
  Runs o = (s : State T) × (o ≡ went s) × Inv s

  after_step-Runs :
      (o : Outcome T) (s : State T) (rest : State T → Outcome T)
      → Inv s
      → ((s' : State T) → Inv s' → Runs (rest s'))
      → Keeps o
      → Runs (after_step o s rest)
  after_step-Runs (went s') s rest i h k = h s' k
  after_step-Runs blocked s rest i h k = h s i
  after_step-Runs fault s rest i h k = absurd k.0

  -- For any calls of any threads, in any order of their steps, no null pointer and no deleted node
  -- is used, and the invariant holds in the state that is reached: the nodes form one list, a
  -- thread has locked the nodes that it is at, and no two threads have locked the same.
  pub run-Inv :
      (os : List (Op T)) (s : State T) → Inv s → (s' : State T) × (run os s ≡ went s') × Inv s'
  unfolding run
  run-Inv [] s i = (s, refl, i)
  run-Inv (o ∷ os) s i = after_step-Runs (step o s) s (run os) i (run-Inv os) (step-Keeps o s i)
