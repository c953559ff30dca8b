-- ===== src/ThreadSafeList/Progress.antt =====
-- The threads that walk the list never all wait for one another.
use concurrency_in_action.Common.{
  ℕ, zero, suc, Bool, ◌<◌, ◌≡◌, ◌≢◌, ◌⊎◌, refl, inl, inr, Option, none, some, arith,
}
use concurrency_in_action.Nodes.{Node, Pointer}
use concurrency_in_action.ThreadSafeList.{
  Job, for_each, find_first_if, remove_if, Local, resting, pushing, linking, starting, arrived,
  waiting, holding, unlinked, visiting, State, Outcome, went, blocked, fault, lock_if, link,
  loop_on, loop_test, remove_or_go, remove_test, with_both, visit_value, visit, delete, continue,
}
use concurrency_in_action.ThreadSafeList.Shape.{PointsTo}
use concurrency_in_action.ThreadSafeList.Invariant.{Placed, Holds, Inv}
use concurrency_in_action.ThreadSafeList.Threads.{Keeps}
use concurrency_in_action.ThreadSafeList.Safety.{continue-Keeps}

module _ {ℓ} {T : Type ℓ} where
  abbrev pub IsBusy : Local T → Type 0
  IsBusy (resting r) = ⊥
  IsBusy (pushing v) = Unit
  IsBusy (linking v) = Unit
  IsBusy (starting j) = Unit
  IsBusy (arrived j cur) = Unit
  IsBusy (waiting j cur nx) = Unit
  IsBusy (holding j cur nx) = Unit
  IsBusy (visiting j nx) = Unit
  IsBusy (unlinked j cur nx) = Unit

  -- Some busy thread can take its next step.
  abbrev pub SomeMoves : State T → Type ℓ
  SomeMoves s = (u : ℕ) × (s' : State T) × IsBusy (s.local u) × (continue (s.local u) u s ≡ went s')

  -- The lock that a thread asks for.
  abbrev Wants : Local T → ℕ → Type 0
  Wants (resting r) a = ⊥
  Wants (pushing v) a = a ≡ 0
  Wants (linking v) a = ⊥
  Wants (starting j) a = a ≡ 0
  Wants (arrived j cur) a = ⊥
  Wants (waiting j cur nx) a = a ≡ nx
  Wants (holding j cur nx) a = ⊥
  Wants (visiting j nx) a = ⊥
  Wants (unlinked j cur nx) a = ⊥

  module _ (s : State T) (t : ℕ) where
    lock_blocked :
        (n : Option (Node T)) (holder : Option ℕ) (a : ℕ) (l : Local T)
        → lock_if n holder t a l s ≡ blocked
        → (u : ℕ) × (holder ≡ some u)
    lock_blocked none holder a l e = absurd (cc)
    lock_blocked (some n) none a l e = absurd (cc)
    lock_blocked (some n) (some u) a l e = (u, refl)

    link_goes : (n : Option (Node T)) (v : T) → link n t v s ≢ blocked
    link_goes none v e = cc
    link_goes (some n) v e = cc

    loop_on_goes : (p : Pointer) (j : Job T) (cur : ℕ) → loop_on p j t cur s ≢ blocked
    loop_on_goes none j cur e = cc
    loop_on_goes (some nx) j cur e = cc

    loop_test_goes : (n : Option (Node T)) (j : Job T) (cur : ℕ) → loop_test n j t cur s ≢ blocked
    loop_test_goes none j cur e = cc
    loop_test_goes (some n) j cur e = loop_on_goes n.next j cur e

    remove_or_go_goes :
        (value : Option T) (n : Option (Node T)) (p : T → Bool) (cur nx : ℕ) (m : Node T)
        → remove_or_go value n p t cur nx m s ≢ blocked
    remove_or_go_goes none n p cur nx m e = cc
    remove_or_go_goes (some x) none p cur nx m e = cc
    remove_or_go_goes (some x) (some n) p cur nx m e = cc

    remove_test_goes :
        (m : Option (Node T)) (p : T → Bool) (cur nx : ℕ) → remove_test m p t cur nx s ≢ blocked
    remove_test_goes none p cur nx e = cc
    remove_test_goes (some m) p cur nx e = remove_or_go_goes m.data_ (s.heap cur) p cur nx m e

    with_both_goes : (j : Job T) (cur nx : ℕ) → with_both j t cur nx s ≢ blocked
    with_both_goes (for_each f) cur nx e = cc
    with_both_goes (find_first_if p) cur nx e = cc
    with_both_goes (remove_if p) cur nx e = remove_test_goes (s.heap nx) p cur nx e

    visit_value_goes :
        (value : Option T) (j : Job T) (nx : ℕ) (m : Node T)
        → visit_value value j t nx m s ≢ blocked
    visit_value_goes none j nx m e = cc
    visit_value_goes (some x) (for_each f) nx m e = cc
    visit_value_goes (some x) (find_first_if p) nx m e = cc
    visit_value_goes (some x) (remove_if p) nx m e = cc

    visit_goes : (m : Option (Node T)) (j : Job T) (nx : ℕ) → visit m j t nx s ≢ blocked
    visit_goes none j nx e = cc
    visit_goes (some m) j nx e = visit_value_goes m.data_ j nx m e

    delete_goes : (m : Option (Node T)) (j : Job T) (cur nx : ℕ) → delete m j t cur nx s ≢ blocked
    delete_goes none j cur nx e = cc
    delete_goes (some m) j cur nx e = cc

    -- A thread is blocked only by the holder of the lock that it asks for.
    blocked_by :
        (l : Local T)
        → continue l t s ≡ blocked
        → (a : ℕ) × (u : ℕ) × Wants l a × (s.locks a ≡ some u)
    unfolding continue
    blocked_by (resting r) e = absurd (cc)
    blocked_by (pushing v) e =
        let (u, h) = lock_blocked (s.heap 0) (s.locks 0) 0 (linking v) e in (0, u, refl, h)
    blocked_by (linking v) e = absurd (link_goes (s.heap 0) v e)
    blocked_by (starting j) e =
        let (u, h) = lock_blocked (s.heap 0) (s.locks 0) 0 (arrived j 0) e in (0, u, refl, h)
    blocked_by (arrived j cur) e = absurd (loop_test_goes (s.heap cur) j cur e)
    blocked_by (waiting j cur nx) e =
        let (u, h) = lock_blocked (s.heap nx) (s.locks nx) nx (holding j cur nx) e in
        (nx, u, refl, h)
    blocked_by (holding j cur nx) e = absurd (with_both_goes j cur nx e)
    blocked_by (visiting j nx) e = absurd (visit_goes (s.heap nx) j nx e)
    blocked_by (unlinked j cur nx) e = absurd (delete_goes (s.heap nx) j cur nx e)

  went_or_blocked : (o : Outcome T) → Keeps o → ((s' : State T) × (o ≡ went s')) ⊎ (o ≡ blocked)
  went_or_blocked (went s') k = inl (s', refl)
  went_or_blocked blocked k = inr refl
  went_or_blocked fault k = absurd k.0

  Holds-IsBusy : (l : Local T) (a : ℕ) → Holds l a → IsBusy l
  Holds-IsBusy (resting r) a h = h
  Holds-IsBusy (pushing v) a h = tt
  Holds-IsBusy (linking v) a h = tt
  Holds-IsBusy (starting j) a h = tt
  Holds-IsBusy (arrived j cur) a h = tt
  Holds-IsBusy (waiting j cur nx) a h = tt
  Holds-IsBusy (holding j cur nx) a h = tt
  Holds-IsBusy (visiting j nx) a h = tt
  Holds-IsBusy (unlinked j cur nx) a h = tt

  module _ (s : State T) (i : Inv s) where
    -- A thread that has one lock and asks for another asks for that of the next node.
    next_wanted :
        (l : Local T) (u a b : ℕ)
        → Holds l a
        → Wants l b
        → Placed s.heap s.locks u l
        → PointsTo (s.heap a) b
    next_wanted (resting r) u a b h w p = absurd h
    next_wanted (pushing v) u a b h w p = absurd h
    next_wanted (linking v) u a b h w p = absurd w
    next_wanted (starting j) u a b h w p = absurd h
    next_wanted (arrived j cur) u a b h w p = absurd w
    next_wanted (waiting j cur nx) u a b h w (l, q) = rw (h, w) q
    next_wanted (holding j cur nx) u a b h w p = absurd w
    next_wanted (visiting j nx) u a b h w p = absurd w
    next_wanted (unlinked j cur nx) u a b h w p = absurd w

    -- The holder of a lock behind the head moves, or waits for one further on.
    holder_moves : (k a u : ℕ) → a < k → 0 < a → s.locks a ≡ some u → SomeMoves s
    holder_moves zero a u lt pos h = absurd (omega arith)
    holder_moves (suc k) a u lt pos h =
        elim (went_or_blocked (continue (s.local u) u s) (continue-Keeps s u i (s.local u) refl)) [
          | inl (s', e) ↦ (u, s', Holds-IsBusy (s.local u) a (i.only a u h), e)
          | inr e ↦
              let (b, v, w, h') = blocked_by s u (s.local u) e in
              let q = next_wanted (s.local u) u a b (i.only a u h) w (i.placed u) in
              let (pos', lower) = i.shape.ordered a b q in
              holder_moves k b v (omega (arith, lower pos)) pos' h'
        ]

    any_holder_moves : (a u : ℕ) → s.locks a ≡ some u → SomeMoves s
    any_holder_moves a u h =
        elim (went_or_blocked (continue (s.local u) u s) (continue-Keeps s u i (s.local u) refl)) [
          | inl (s', e) ↦ (u, s', Holds-IsBusy (s.local u) a (i.only a u h), e)
          | inr e ↦
              let (b, v, w, h') = blocked_by s u (s.local u) e in
              let q = next_wanted (s.local u) u a b (i.only a u h) w (i.placed u) in
              holder_moves (suc b) b v (omega arith) (i.shape.ordered a b q).0 h'
        ]

  -- No deadlock: in every state that satisfies the invariant, while some thread is in a call, some
  -- thread in a call can take its next step.
  pub no_deadlock_in_list : (s : State T) (t : ℕ) → Inv s → IsBusy (s.local t) → SomeMoves s
  no_deadlock_in_list s t i busy =
      elim (went_or_blocked (continue (s.local t) t s) (continue-Keeps s t i (s.local t) refl)) [
        | inl (s', e) ↦ (t, s', busy, e)
        | inr e ↦ let (b, v, w, h) = blocked_by s t (s.local t) e in any_holder_moves s i b v h
      ]
