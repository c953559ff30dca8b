-- ===== src/RefCountStack/PushSteps.antt =====
-- The steps of `push`.
use mathlib.Core.Path.{subst}
use mathlib.Core.Option.{some-injective}
use concurrency_in_action.Common.{
  ℕ, ◌<◌, ◌≡◌, ◌≢◌, refl, sym, ap, ◌∙◌, Bool, true, false, if◌then◌else◌, Option, none, some, ◌∷◌,
  update, update_ne, update_self, arith,
}
use concurrency_in_action.StackModel.{Model, silent, offers, pushed, after}
use concurrency_in_action.RefCountStack.{
  CountedPtr, Node, Place, returned, loading, inserting, State, same, goes, use_node, write, insert,
  start_push,
}
use concurrency_in_action.RefCountStack.Labels.{
  free, fresh, linked, refers, references, Balanced, Chain, Chain-away, Chain-IsOut,
}
use concurrency_in_action.RefCountStack.Roles.{Links, Has, Carries, Inv, rebuild}
use concurrency_in_action.RefCountStack.Frames.{IsOf, Has-other, others_relabel}
use concurrency_in_action.RefCountStack.Events.{new_event, pushed_if, insert_event, Keeps, same-eq}
use concurrency_in_action.RefCountStack.References.{
  CountedPtr-eq, use_node_elim, Balanced-none, recount, unreferenced,
}

module _ {ℓ} {T : Type ℓ} (n t : ℕ) (mine : t < n) (m : Model T) (s : State T) (v : Inv n m s) where
  -- `new node(data)`.
  pub start_push-Keeps :
      (o : Option (Node T)) (res : Option T) (d : T) (p : ℕ)
      → s.heap p ≡ o
      → s.places t ≡ returned res
      → Keeps n (new_event t d o) m (start_push o t d p s)
  start_push-Keeps (some k) res d p at e = (tt, v)
  start_push-Keeps none res d p at e =
      let (was_free, unused) = Balanced-none (v.labels p) (s.heap p) _ at (v.balanced p) in
      let count = recount n t mine m s v p (returned res) (loading p) e in
      let labels' = update v.labels p (fresh t) in
      let zero_count : references n (update s.places t (loading p)) p ≡ 0 =
        omega (arith, count, unused) in
      (
        tt,
        rebuild n t mine m (after (offers t (some d)) m) s v p labels' (update s.heap p (some new))
            s.head (returned res) (loading p) v.cells e
            (λ a ne. (update_ne v.labels p a (fresh t) ne, update_ne s.heap p a (some new) ne))
            (λ a ne. refl) (λ u ne. update_ne m.in_hand t u (some d) ne)
            (λ u ne q at.
              others_relabel t s.heap v.labels m.in_hand (update m.in_hand t (some d))
                (λ u ne. update_ne m.in_hand t u (some d) ne) (update s.heap p (some new)) p free
                (fresh t) (λ a ne. update_ne s.heap p a (some new) ne) was_free (λ u ne h. h) u ne q
                (λ next one k. absurd (unreferenced n t mine m s v p u q unused at one)))
            (rw (update_self v.labels p (fresh t), update_self s.heap p (some new))
              (new, refl, (refl, zero_count, tt)))
            (Chain-away s.heap (update s.heap p (some new)) v.labels labels' p s.head v.cells
              (λ a ne. (update_ne v.labels p a (fresh t) ne, update_ne s.heap p a (some new) ne))
              (Chain-IsOut s.heap v.labels p s.head v.cells
                (λ e l. free_ne_linked e (sym was_free ∙ l)) v.stack_chain)
              v.stack_chain)
            v.contents_eq
            (
              update_self v.labels p (fresh t),
              (new, update_self s.heap p (some new), sym (update_self m.in_hand t (some d))),
            )
            (d, update_self m.in_hand t (some d)),
      )
    where
      new : Node T
      new = record {
        data_ = some d;
        internal_count = 0;
        next = record { external_count = 0; ptr = none };
      }

      free_ne_linked : (e : ℕ) → free ≢ linked e
      free_ne_linked e h = cc

  -- A write to a node that the thread pushes.
  write_new :
      (p : ℕ) (k k' : Node T) (from to : Place T)
      → s.places t ≡ from
      → ((a : ℕ) → refers a to ≡ refers a from)
      → v.labels p ≡ fresh t
      → s.heap p ≡ some k
      → k'.internal_count ≡ k.internal_count
      → Has (update s.heap p (some k')) v.labels m.in_hand t to
      → Carries (m.in_hand t) to
      → Inv n m (record s { heap = update s.heap p (some k'); places = update s.places t to })
  write_new p k k' from to e keep l at same_count has ca =
      rebuild n t mine m m s v p v.labels (update s.heap p (some k')) s.head from to v.cells e
        (λ a ne. (refl, update_ne s.heap p a (some k') ne)) (λ a ne. keep a) (λ u ne. refl)
        (λ u ne q at.
          Has-other s.heap (update s.heap p (some k')) v.labels v.labels m.in_hand m.in_hand u p
            (λ a ne. (refl, update_ne s.heap p a (some k') ne)) refl (λ L o e. e)
            (λ L o e. absurd (ne (sym (subst (IsOf u) (sym e ∙ l) o)))) q
            (λ next one k. absurd ((subst (λ L. Links L (s.heap p) next) l k).0)))
        (rw (l, update_self s.heap p (some k')) (k', refl, balance))
        (Chain-away s.heap (update s.heap p (some k')) v.labels v.labels p s.head v.cells
          (λ a ne. (refl, update_ne s.heap p a (some k') ne))
          (Chain-IsOut s.heap v.labels p s.head v.cells (λ e h. fresh_ne_linked e (sym l ∙ h))
            v.stack_chain)
          v.stack_chain)
        v.contents_eq has ca
    where
      fresh_ne_linked : (e : ℕ) → fresh t ≢ linked e
      fresh_ne_linked e h = cc

      balance : (k'.internal_count ≡ 0) × (references n (update s.places t to) p ≡ 0) × Unit {ℓ}
      balance =
          let (z, at', (i, c, u)) =
            subst (λ L. Balanced L (s.heap p) (references n s.places p)) l (v.balanced p) in
          let count = recount n t mine m s v p from to e in
          let kept = keep p in
          (
            same_count
                ∙ ap (λ (y : Node T). y.internal_count) (some-injective k z (sym at ∙ at'))
                ∙ i,
            omega (arith, count, kept, c),
            tt,
          )

  pub loading-Keeps :
      (p : ℕ)
      → s.places t ≡ loading p
      → Has s.heap v.labels m.in_hand t (loading p)
      → Carries (m.in_hand t) (loading p)
      → Keeps n silent m
          (use_node (s.heap p) (λ k. goes t (inserting p) (write p (record k { next = s.head }) s)))
  loading-Keeps p e (l, (k, at, dat)) r =
      use_node_elim (λ o r. Keeps n silent m r) _ (s.heap p) k at
        (
          tt,
          write_new p k (record k { next = s.head }) (loading p) (inserting p) e (λ a. refl) l at
              refl (l, (record k { next = s.head }, update_self s.heap p _, dat)) r,
        )

  insert-Keeps :
      (b : Bool) (p : ℕ) (k : Node T)
      → s.places t ≡ inserting p
      → v.labels p ≡ fresh t
      → s.heap p ≡ some k
      → k.data_ ≡ m.in_hand t
      → Carries (m.in_hand t) (inserting p)
      → (b ≡ true → s.head ≡ k.next)
      → Keeps n (pushed_if b t k.data_) m (insert b t p k s)
  insert-Keeps false p k e l at dat r linked_to = (
    tt,
    write_new p k (record k { next = s.head }) (inserting p) (inserting p) e (λ a. refl) l at refl
        (l, (record k { next = s.head }, update_self s.heap p _, dat)) r,
  )
  insert-Keeps true p k e l at dat r linked_to =
      let labels' = update v.labels p (linked 1) in
      let (z, at', (i, c, u)) =
        subst (λ L. Balanced L (s.heap p) (references n s.places p)) l (v.balanced p) in
      let count = recount n t mine m s v p (inserting p) (returned none) e in
      let zero_count : references n (update s.places t (returned none)) p ≡ 0 =
        omega (arith, count, c) in
      let internal : k.internal_count ≡ 0 =
        ap (λ (y : Node T). y.internal_count) (some-injective k z (sym at ∙ at')) ∙ i in
      let out =
        Chain-IsOut s.heap v.labels p s.head v.cells (λ e h. fresh_ne_linked e (sym l ∙ h))
          v.stack_chain in
      (
        (r.0, dat ∙ r.1, r.1),
        rebuild n t mine m (after (pushed t k.data_) m) s v p labels' s.heap
            (record { external_count = 1; ptr = some p }) (inserting p) (returned none)
            ((p, k.data_) ∷ v.cells) e (λ a ne. (update_ne v.labels p a (linked 1) ne, refl))
            (λ a ne. refl) (λ u ne. refl)
            (λ u ne q at.
              others_relabel t s.heap v.labels m.in_hand m.in_hand (λ u ne. refl) s.heap p (fresh t)
                (linked 1) (λ a ne. refl) l (λ u ne e. ne (sym e)) u ne q
                (λ next one k. absurd k.0))
            (rw (update_self v.labels p (linked 1))
              (k, at, (0, omega (arith, zero_count), omega (arith, internal), omega arith, tt)))
            (
              refl,
              update_self v.labels p (linked 1),
              out,
              (
                k,
                at,
                refl,
                Chain-away s.heap s.heap v.labels labels' p k.next v.cells
                    (λ a ne. (update_ne v.labels p a (linked 1) ne, refl)) out
                    (subst (λ c. Chain s.heap v.labels c v.cells) (linked_to refl) v.stack_chain),
              ),
            )
            (ap (λ ds. k.data_ ∷ ds) v.contents_eq) tt tt,
      )
    where
      fresh_ne_linked : (e : ℕ) → fresh t ≢ linked e
      fresh_ne_linked e h = cc

  pub inserting-Keeps :
      (w : Bool) (p : ℕ)
      → s.places t ≡ inserting p
      → Has s.heap v.labels m.in_hand t (inserting p)
      → Carries (m.in_hand t) (inserting p)
      → Keeps n
          (insert_event w t s.head (s.heap p))
          m
          (use_node (s.heap p) (λ k. insert (if w then false else same s.head k.next) t p k s))
  inserting-Keeps w p e (l, (k, at, dat)) r =
      use_node_elim (λ o r. Keeps n (insert_event w t s.head o) m r) _ (s.heap p) k at
        (insert-Keeps _ p k e l at dat r (exchanged w s.head k.next))
    where
      exchanged : (w : Bool) (c d : CountedPtr) → (if w then false else same c d) ≡ true → c ≡ d
      exchanged true c d h = cc
      exchanged false c d h = let (e, f) = same-eq c d h in CountedPtr-eq c d e f
