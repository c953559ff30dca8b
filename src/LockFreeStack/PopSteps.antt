-- ===== src/LockFreeStack/PopSteps.antt =====
-- The steps of `pop`, up to `try_reclaim`.
use mathlib.Core.Path.{subst}
use mathlib.Core.Option.{some-injective}
use concurrency_in_action.Common.{
  ℕ, ◌<◌, ◌≡◌, ◌≢◌, refl, sym, ap, ◌∙◌, ◌⊎◌, inl, inr, Bool, true, false, if◌then◌else◌, Option,
  none, some, List, [], ◌∷◌, update, map, update_elim, update_ne, update_self,
}
use concurrency_in_action.Nodes.{Node, Pointer}
use concurrency_in_action.StackModel.{Model, silent, popped, was_empty, after, take_top}
use concurrency_in_action.LockFreeStack.{
  Place, entering, loading_head, looping, comparing, taking, reclaiming, State, same, goes, deref,
  write, take_head, loop_test, chain, increment,
}
use concurrency_in_action.LockFreeStack.Count.{counted, stays, enters}
use concurrency_in_action.LockFreeStack.Labels.{
  Label, free, stacked, pending, held, IsShared, Change-label,
}
use concurrency_in_action.LockFreeStack.Chains.{IsOut, Seg, Seg-Change, Seg-out}
use concurrency_in_action.LockFreeStack.Roles.{Refers, Has, Carries, Inv}
use concurrency_in_action.LockFreeStack.Frames.{IsShared-Refers}
use concurrency_in_action.LockFreeStack.Rebuild.{rebuild, quiet}
use concurrency_in_action.LockFreeStack.Writes.{node_at, use_node_elim, writes}
use concurrency_in_action.LockFreeStack.Events.{head_event, take_event, Keeps, exchanged-eq}

module _ {ℓ} {T : Type ℓ} where
  -- The head is the first of the nodes of the stack.
  stacked_head :
      (labels : ℕ → Label) (heap : ℕ → Option (Node T)) (a : ℕ) (cells : List (ℕ × Option T))
      → Seg heap labels stacked (some a) cells none
      → labels a ≡ stacked
  stacked_head labels heap a [] (bad, u) = absurd (cc)
  stacked_head labels heap a ((b, d) ∷ rest) (at, l, out, more) =
      ap labels (some-injective a b at) ∙ l

  no_cells :
      (X : Label) (labels : ℕ → Label) (heap : ℕ → Option (Node T)) (cells : List (ℕ × Option T))
      → Seg heap labels X none cells none
      → cells ≡ []
  no_cells X labels heap [] s = refl
  no_cells X labels heap ((b, d) ∷ rest) (bad, l, out, more) = absurd (cc)

module _ {ℓ} {T : Type ℓ} (n t : ℕ) (mine : t < n) (m : Model T) (s : State T) (v : Inv n m s) where
  pub enters-Keeps :
      s.places t ≡ entering
      → Keeps n silent m
          (goes t loading_head (record s { threads_in_pop = increment s.threads_in_pop }))
  enters-Keeps e = (tt, quiet n t mine m s v _ loading_head tt tt (enters n t mine s e v.counts))

  -- The head is loaded, by the load or by a compare_exchange that fails.
  loaded-Keeps :
      (head : Pointer) (from : Place T)
      → s.head ≡ head
      → s.places t ≡ from
      → counted from ≡ 1
      → Keeps n (head_event t head) m (goes t (looping head) s)
  loaded-Keeps (some a) from h e one = (
    tt,
    quiet n t mine m s v s.threads_in_pop (looping (some a))
        (
          subst IsShared
              (sym (
                stacked_head v.labels s.heap a v.cells
                  (subst (λ q. Seg s.heap v.labels stacked q v.cells none) h v.stack_chain)))
              tt,
          tt,
        )
        tt (stays n t mine s from (looping (some a)) e v.counts (sym one)),
  )
  loaded-Keeps none from h e one =
      let chain = subst (λ q. Seg s.heap v.labels stacked q v.cells none) h v.stack_chain in
      let empty = no_cells stacked v.labels s.heap v.cells chain in
      (
        sym v.contents_eq ∙ ap (λ cs. map (λ (c : ℕ × Option T). c.1) cs) empty,
        rebuild n t mine m (after (was_empty t) m) s v free free v.labels s.heap s.head
            s.to_be_deleted s.threads_in_pop (looping none) v.cells v.pending_cells
            (λ a. inl (refl, refl)) (λ u ne h. h) (λ u ne. update_ne m.in_hand t u none ne)
            (λ u ne c h. absurd h) v.allocated v.stack_chain v.contents_eq v.pending_chain tt
            (sym (update_self m.in_hand t none))
            (stays n t mine s from (looping none) e v.counts (sym one)),
      )

  pub loading_head-Keeps :
      s.places t ≡ loading_head → Keeps n (head_event t s.head) m (goes t (looping s.head) s)
  loading_head-Keeps e = loaded-Keeps s.head loading_head refl e refl

  pub looping-Keeps :
      (p : Pointer)
      → s.places t ≡ looping p
      → Has s.heap v.labels m.in_hand t (looping p)
      → Carries (m.in_hand t) (looping p)
      → Keeps n silent m (loop_test p t s)
  looping-Keeps none e h r = (
    tt,
    quiet n t mine m s v s.threads_in_pop (reclaiming none none) tt r
        (stays n t mine s (looping none) (reclaiming none none) e v.counts refl),
  )
  looping-Keeps (some a) e (shared, u) r =
      let (k, at) =
        node_at v.labels s.heap a (v.labels a) v.allocated refl (λ f. subst IsShared f shared) in
      use_node_elim (λ o r. Keeps n silent m r) _ (s.heap a) k at
        (
          tt,
          quiet n t mine m s v s.threads_in_pop (comparing a k.next)
              (IsShared-Refers (v.labels a) s.heap a k at shared) tt
              (stays n t mine s (looping (some a)) (comparing a k.next) e v.counts refl),
        )

  -- The compare_exchange takes the node on top.
  taken :
      (a : ℕ) (next : Pointer) (cells : List (ℕ × Option T))
      → s.places t ≡ comparing a next
      → v.labels a ≡ stacked
      → Refers stacked s.heap a next
      → Seg s.heap v.labels stacked (some a) cells none
      → map (λ c. c.1) cells ≡ m.contents
      → Keeps n (popped t) m (goes t (taking a) (record s { head = next }))
  taken a next [] e l r (bad, u) contents = absurd (cc)
  taken a next ((b, d) ∷ rest) e l (k, here, (link, u)) (at, lb, out, (k', here', dat, chain))
        contents =
      let same_node = some-injective a b at in
      let c = Change-label v.labels s.heap a stacked (held t) l in
      let labels' = update v.labels a (held t) in
      let k_eq = some-injective k k' (sym here ∙ ap s.heap same_node ∙ here') in
      let next_eq = sym (ap (λ (q : Node T). q.next) k_eq) ∙ link in
      let m_eq : after (popped t) m ≡ (record {
        contents = map (λ (q : ℕ × Option T). q.1) rest;
        in_hand = update m.in_hand t d;
      }) =
        ap (λ ds. take_top t ds m) (sym contents) in
      (
        λ empty. cons_ne_nil (contents ∙ empty),
        subst (λ m'. Inv n m' (record s { head = next; places = update s.places t (taking a) }))
            (sym m_eq)
            (rebuild n t mine m _ s v stacked (held t) labels' s.heap next s.to_be_deleted
              s.threads_in_pop (taking a) rest v.pending_cells c (λ u ne h. h)
              (λ u ne. update_ne m.in_hand t u d ne) (λ u ne h sh. (tt, λ e. cc))
              (update_elim (λ q y. (y ≡ free) ⊎ ((z : Node T) × (s.heap q ≡ some z))) v.labels a
                (held t) (inr (k, here)) (λ q ne. v.allocated q))
              (subst (λ q. Seg s.heap labels' stacked q rest none) next_eq
                (Seg-out stacked (held t) v.labels s.heap a k'.next none rest
                  (subst (λ q. IsOut q rest) (sym same_node) out) chain))
              refl
              (Seg-Change stacked (held t) pending v.labels labels' s.heap s.heap s.to_be_deleted
                none v.pending_cells c (λ e. cc) v.pending_chain)
              (
                update_self v.labels a (held t),
                (
                  k,
                  here,
                  ap (λ (q : Node T). q.data_) k_eq ∙ dat ∙ sym (update_self m.in_hand t d),
                ),
              )
              tt (stays n t mine s (comparing a next) (taking a) e v.counts refl)),
      )
    where
      cons_ne_nil : {x : Option T} {xs : List (Option T)} → x ∷ xs ≢ []
      cons_ne_nil e = cc

  take_head-Keeps :
      (b : Bool) (a : ℕ) (next : Pointer)
      → s.places t ≡ comparing a next
      → Refers (v.labels a) s.heap a next
      → (b ≡ true → s.head ≡ some a)
      → Keeps n (take_event b t s.head) m (take_head b t a next s)
  take_head-Keeps false a next e r same = loaded-Keeps s.head (comparing a next) refl e refl
  take_head-Keeps true a next e r same =
      let chain =
        subst (λ q. Seg s.heap v.labels stacked q v.cells none) (same refl) v.stack_chain in
      let l = stacked_head v.labels s.heap a v.cells chain in
      taken a next v.cells e l (subst (λ L. Refers L s.heap a next) l r) chain v.contents_eq

  pub comparing-Keeps :
      (w : Bool) (a : ℕ) (next : Pointer)
      → s.places t ≡ comparing a next
      → Refers (v.labels a) s.heap a next
      → Keeps n
          (take_event (if w then false else same s.head (some a)) t s.head)
          m
          (take_head (if w then false else same s.head (some a)) t a next s)
  comparing-Keeps w a next e r = take_head-Keeps _ a next e r (exchanged-eq w s.head (some a))

  -- `res.swap(old_head->data)`.
  pub taking-Keeps :
      (p : ℕ)
      → s.places t ≡ taking p
      → Has s.heap v.labels m.in_hand t (taking p)
      → Keeps n silent m (
          deref (some p) s (λ k.
            goes t (reclaiming (some p) k.data_) (write (some p) (record k { data_ = none }) s)))
  taking-Keeps p e (l, (k, here, dat)) =
      use_node_elim (λ o r. Keeps n silent m r) _ (s.heap p) k here
        (
          tt,
          writes n t mine m s v (held t) p (record k { data_ = none }) (reclaiming (some p) k.data_)
              l (λ e. cc) (λ e. cc) (λ u ne e. ne (sym e)) (l, tt) dat
              (stays n t mine s (taking p) (reclaiming (some p) k.data_) e v.counts refl),
        )
