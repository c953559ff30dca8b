-- ===== src/LockFreeStack/PushSteps.antt =====
-- The steps of `push`.
use mathlib.Core.Path.{subst}
use concurrency_in_action.Common.{
  ◌∙◌, ℕ, ◌<◌, ◌≡◌, refl, sym, ap, ◌⊎◌, inl, inr, Bool, true, false, if◌then◌else◌, Option, none,
  some, ◌∷◌, update, update_elim, update_ne, update_self,
}
use concurrency_in_action.Nodes.{Node}
use concurrency_in_action.StackModel.{Model, silent, offers, pushed, after}
use concurrency_in_action.LockFreeStack.{
  Place, returned, loading, inserting, State, same, goes, deref, write, insert, start_push,
}
use concurrency_in_action.LockFreeStack.Count.{counted, stays}
use concurrency_in_action.LockFreeStack.Labels.{
  free, stacked, pending, fresh, Change, Change-label, Change-at,
}
use concurrency_in_action.LockFreeStack.Chains.{Seg, Seg-Change, Seg-cons}
use concurrency_in_action.LockFreeStack.Roles.{Has, Carries, Inv}
use concurrency_in_action.LockFreeStack.Rebuild.{rebuild}
use concurrency_in_action.LockFreeStack.Writes.{use_node_elim, writes}
use concurrency_in_action.LockFreeStack.Events.{
  new_event, pushed_if, insert_event, Keeps, exchanged-eq,
}

module _ {ℓ} {T : Type ℓ} (n t : ℕ) (mine : t < n) (m : Model T) (s : State T) (v : Inv n m s) where
  -- `new node(data)`.
  pub start_push-Keeps :
      (o : Option (Node T)) (res : Option T) (d : T) (p : ℕ)
      → s.heap p ≡ o
      → s.places t ≡ returned res
      → Keeps n (new_event t d o) m (start_push o t d p s)
  start_push-Keeps (some k) res d p at e = (tt, v)
  start_push-Keeps none res d p at e = (
    tt,
    rebuild n t mine m (after (offers t (some d)) m) s v free (fresh t)
        (update v.labels p (fresh t)) (update s.heap p (some new)) s.head s.to_be_deleted
        s.threads_in_pop (loading p) v.cells v.pending_cells c (λ u ne h. h)
        (λ u ne. update_ne m.in_hand t u (some d) ne) (λ u ne h sh. absurd sh) allocated
        (Seg-Change free (fresh t) stacked v.labels _ s.heap _ s.head none v.cells c (λ e. cc)
          v.stack_chain)
        v.contents_eq
        (Seg-Change free (fresh t) pending v.labels _ s.heap _ s.to_be_deleted none v.pending_cells
          c (λ e. cc) v.pending_chain)
        (
          update_self v.labels p (fresh t),
          (new, update_self s.heap p (some new), sym (update_self m.in_hand t (some d))),
        )
        (d, update_self m.in_hand t (some d))
        (stays n t mine s (returned res) (loading p) e v.counts refl),
  )
    where
      new : Node T
      new = record { data_ = some d; next = none }

      was_free : v.labels p ≡ free
      was_free = elim (v.allocated p) [ inl f ↦ f | inr (k, h) ↦ absurd (cc) ]

      c :
          Change free
            (fresh t)
            v.labels
            (update v.labels p (fresh t))
            s.heap
            (update s.heap p (some new))
      c = Change-at v.labels s.heap p free (fresh t) (some new) was_free

      allocated :
          (b : ℕ)
          → (update v.labels p (fresh t) b ≡ free)
            ⊎ ((q : Node T) × (update s.heap p (some new) b ≡ some q))
      allocated =
          update_elim
            (λ b h. (update v.labels p (fresh t) b ≡ free) ⊎ ((q : Node T) × (h ≡ some q))) s.heap p
            (some new) (inr (new, refl))
            (λ b ne.
              subst (λ l. (l ≡ free) ⊎ ((q : Node T) × (s.heap b ≡ some q)))
                (sym (update_ne v.labels p b (fresh t) ne)) (v.allocated b))

  -- The write of `new_node->next`, here and where the compare_exchange fails.
  link_new-Keeps :
      (p : ℕ) (k : Node T) (from : Place T)
      → s.places t ≡ from
      → counted from ≡ 0
      → v.labels p ≡ fresh t
      → k.data_ ≡ m.in_hand t
      → Carries (m.in_hand t) (inserting p)
      → Inv n m (record s {
        heap = update s.heap p (some (record k { next = s.head }));
        places = update s.places t (inserting p);
      })
  link_new-Keeps p k from e zero_count h dat r =
      writes n t mine m s v (fresh t) p (record k { next = s.head }) (inserting p) h (λ e. cc)
        (λ e. cc) (λ u ne e. ne (sym e))
        (h, (record k { next = s.head }, update_self s.heap p _, dat)) r
        (stays n t mine s from (inserting p) e v.counts (sym zero_count))

  pub loading-Keeps :
      (p : ℕ)
      → s.places t ≡ loading p
      → Has s.heap v.labels m.in_hand t (loading p)
      → Carries (m.in_hand t) (loading p)
      → Keeps n silent m (
          deref
            (some p)
            s
            (λ k. goes t (inserting p) (write (some p) (record k { next = s.head }) s)))
  loading-Keeps p e (h, (k, at, dat)) r =
      use_node_elim (λ o r. Keeps n silent m r) _ (s.heap p) k at
        (tt, link_new-Keeps p k (loading p) e refl h dat r)

  insert-Keeps :
      (b : Bool) (p : ℕ) (k : Node T)
      → s.places t ≡ inserting p
      → v.labels p ≡ fresh t
      → s.heap p ≡ some k
      → k.data_ ≡ m.in_hand t
      → Carries (m.in_hand t) (inserting p)
      → (b ≡ true → s.head ≡ k.next)
      → Keeps n (pushed_if b t k.data_) m (insert b t p k s)
  insert-Keeps false p k e h at dat r linked = (tt, link_new-Keeps p k (inserting p) e refl h dat r)
  insert-Keeps true p k e h at dat r linked =
      let c = Change-label v.labels s.heap p (fresh t) stacked h in
      let labels' = update v.labels p stacked in
      (
        (r.0, dat ∙ r.1, r.1),
        rebuild n t mine m (after (pushed t k.data_) m) s v (fresh t) stacked labels' s.heap
            (some p) s.to_be_deleted s.threads_in_pop (returned none) ((p, k.data_) ∷ v.cells)
            v.pending_cells c (λ u ne e. ne (sym e)) (λ u ne. refl) (λ u ne h sh. absurd sh)
            (update_elim (λ b l. (l ≡ free) ⊎ ((q : Node T) × (s.heap b ≡ some q))) v.labels p
              stacked (inr (k, at)) (λ b ne. v.allocated b))
            (Seg-cons stacked (fresh t) v.labels s.heap p k none v.cells h (λ e. cc) at
              (subst (λ q. Seg s.heap v.labels stacked q v.cells none) (linked refl) v.stack_chain))
            (ap (λ ds. k.data_ ∷ ds) v.contents_eq)
            (Seg-Change (fresh t) stacked pending v.labels labels' s.heap s.heap s.to_be_deleted
              none v.pending_cells c (λ e. cc) v.pending_chain)
            tt tt (stays n t mine s (inserting p) (returned none) e v.counts refl),
      )

  pub inserting-Keeps :
      (w : Bool) (p : ℕ)
      → s.places t ≡ inserting p
      → Has s.heap v.labels m.in_hand t (inserting p)
      → Carries (m.in_hand t) (inserting p)
      → Keeps n
          (insert_event w t s.head (s.heap p))
          m
          (deref (some p) s (λ k. insert (if w then false else same s.head k.next) t p k s))
  inserting-Keeps w p e (h, (k, at, dat)) r =
      use_node_elim (λ o r. Keeps n (insert_event w t s.head o) m r) _ (s.heap p) k at
        (insert-Keeps _ p k e h at dat r (exchanged-eq w s.head k.next))
