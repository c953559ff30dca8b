-- ===== src/LockFreeStack/ReclaimSteps.antt =====
-- The steps of `try_reclaim`.
use concurrency_in_action.Common.{
  ℕ, ◌%◌, ◌^◌, ◌<◌, ◌≡◌, ◌≢◌, refl, sym, ap, ◌∙◌, ◌⊎◌, inl, inr, Bool, true, false, ◌==◌, ==_iff,
  Option, none, some, List, [], update, update_self,
}
use concurrency_in_action.Nodes.{Node, Pointer}
use concurrency_in_action.StackModel.{Model, silent}
use concurrency_in_action.LockFreeStack.{
  deletes, leaves, Place, reclaiming, claiming, counting, deleting_nodes, deleting, walking,
  linking, State, goes, try_reclaim, delete_or_chain, chain, decrement,
}
use concurrency_in_action.LockFreeStack.Count.{counted, threads_counted, Counts, stays, exits}
use concurrency_in_action.LockFreeStack.Labels.{
  Label, free, stacked, pending, held, doomed, claimed, condemned, IsShared, IsOf, Change,
  claim_label, release_label, claim_label-cases, release_label-cases, release_label-claimed,
}
use concurrency_in_action.LockFreeStack.Chains.{Seg, Seg-Change, Seg-relabel}
use concurrency_in_action.LockFreeStack.Roles.{IsDoomed, Has, Carries, Inv}
use concurrency_in_action.LockFreeStack.Rebuild.{rebuild, quiet}
use concurrency_in_action.LockFreeStack.Writes.{node_at, relabels}
use concurrency_in_action.LockFreeStack.Alone.{alone, none_left}
use concurrency_in_action.LockFreeStack.Events.{Keeps}

module _ {ℓ} {T : Type ℓ} (n t : ℕ) (few : n < 2 ^ 32) (mine : t < n) (m : Model T) (s : State T)
    (v : Inv n m s) where
  -- The nodes with label `X` get label `Y`; the stack stays.
  relabels_all :
      (X Y : Label) (labels' : ℕ → Label) (to_be_deleted' : Pointer) (count' : ℕ) (to : Place T)
      (pending_cells' : List (ℕ × Option T))
      → ((a : ℕ) → (labels' a ≡ v.labels a) ⊎ ((v.labels a ≡ X) × (labels' a ≡ Y)))
      → X ≢ stacked
      → X ≢ free
      → ((u : ℕ) → t ≢ u → IsOf u X → ⊥)
      → ((u : ℕ) → t ≢ u → counted (s.places u) ≡ 1 → IsShared X → IsShared Y × (Y ≢ stacked))
      → Seg s.heap labels' pending to_be_deleted' pending_cells' none
      → Has s.heap labels' m.in_hand t to
      → Carries (m.in_hand t) to
      → (let s' : State T = record s {
        threads_in_pop = count';
        to_be_deleted = to_be_deleted';
        places = update s.places t to;
      } in
          Counts n s' → Inv n m s')
  relabels_all X Y labels' tbd' count' to pcells' relabel ns nf o keep pe has ca cn =
      rebuild n t mine m m s v X Y labels' s.heap s.head tbd' count' to v.cells pcells' c o
        (λ u ne. refl) keep allocated
        (Seg-Change X Y stacked v.labels labels' s.heap s.heap s.head none v.cells c ns
          v.stack_chain)
        v.contents_eq pe has ca cn
    where
      c : Change X Y v.labels labels' s.heap s.heap
      c a = elim (relabel a) [ inl l ↦ inl (l, refl) | inr h ↦ inr h ]

      allocated : (a : ℕ) → (labels' a ≡ free) ⊎ ((k : Node T) × (s.heap a ≡ some k))
      allocated a = elim (v.allocated a) [
        | inr h ↦ inr h
        | inl f ↦ elim (relabel a) [ inl l ↦ inl (l ∙ f) | inr (x, y) ↦ absurd (nf (sym x ∙ f)) ]
      ]

  -- The test of the count.
  try_reclaim-Keeps :
      (b : Bool) (p : Pointer) (res : Option T)
      → s.places t ≡ reclaiming p res
      → Has s.heap v.labels m.in_hand t (reclaiming p res)
      → res ≡ m.in_hand t
      → (b ≡ true → s.threads_in_pop ≡ 1)
      → Keeps n silent m (try_reclaim b t p res s)
  try_reclaim-Keeps true none res e h r test = (
    tt,
    quiet n t mine m s v s.threads_in_pop (claiming none res) (tt, tt) r
        (stays n t mine s (reclaiming none res) (claiming none res) e v.counts refl),
  )
  try_reclaim-Keeps false none res e h r test = (
    tt,
    quiet n t mine m s v s.threads_in_pop (linking none none leaves res) (tt, tt) r
        (stays n t mine s (reclaiming none res) (linking none none leaves res) e v.counts refl),
  )
  try_reclaim-Keeps true (some p) res e (l, u) r test =
      let (k, at) = node_at v.labels s.heap p (held t) v.allocated l (λ e. cc) in
      (
        tt,
        relabels n t mine m s v (held t) (doomed t) p k (claiming (some p) res) l at (λ e. cc)
            (λ e. cc) (λ u ne e. ne (sym e))
            (λ u ne one sh. absurd (
              alone n t few mine s v.above u ne (reclaiming (some p) res) v.counts e refl
                (test refl) one))
            (update_self v.labels p (doomed t), tt) r
            (stays n t mine s (reclaiming (some p) res) (claiming (some p) res) e v.counts refl),
      )
  try_reclaim-Keeps false (some p) res e (l, u) r test =
      let (k, at) = node_at v.labels s.heap p (held t) v.allocated l (λ e. cc) in
      (
        tt,
        relabels n t mine m s v (held t) (claimed t) p k (linking (some p) (some p) leaves res) l at
            (λ e. cc) (λ e. cc) (λ u ne e. ne (sym e)) (λ u ne one sh. (tt, λ e. cc))
            (
              tt,
              (
                [],
                k.data_,
                k.next,
                (refl, update_self v.labels p (claimed t), tt, (k, at, refl, (refl, tt))),
              ),
            )
            r
            (stays n t mine s (reclaiming (some p) res) (linking (some p) (some p) leaves res) e
              v.counts refl),
      )

  pub reclaiming-Keeps :
      (p : Pointer) (res : Option T)
      → s.places t ≡ reclaiming p res
      → Has s.heap v.labels m.in_hand t (reclaiming p res)
      → res ≡ m.in_hand t
      → Keeps n silent m (try_reclaim (s.threads_in_pop == 1) t p res s)
  reclaiming-Keeps p res e h r = try_reclaim-Keeps _ p res e h r (==_iff s.threads_in_pop 1).0

  claimed-IsDoomed :
      (p : Pointer) → IsDoomed v.labels t p → IsDoomed (λ a. claim_label t (v.labels a)) t p
  claimed-IsDoomed none h = h
  claimed-IsDoomed (some p) h = ap (claim_label t) h

  -- `to_be_deleted.exchange(nullptr)`.
  pub claiming-Keeps :
      (p : Pointer) (res : Option T)
      → s.places t ≡ claiming p res
      → IsDoomed v.labels t p
      → res ≡ m.in_hand t
      → Keeps n silent m
          (goes t (counting s.to_be_deleted p res) (record s { to_be_deleted = none }))
  claiming-Keeps p res e h r = (
    tt,
    relabels_all pending (claimed t) (λ a. claim_label t (v.labels a)) none s.threads_in_pop
        (counting s.to_be_deleted p res) [] (λ a. claim_label-cases t (v.labels a)) (λ e. cc)
        (λ e. cc) (λ u ne h. h) (λ u ne one sh. (tt, λ e. cc)) (refl, tt)
        (
          claimed-IsDoomed p h,
          (
            v.pending_cells,
            Seg-relabel pending (claimed t) v.labels (λ a. claim_label t (v.labels a)) s.heap
                s.to_be_deleted none v.pending_cells (λ a l. ap (claim_label t) l) v.pending_chain,
          ),
        )
        r (stays n t mine s (claiming p res) (counting s.to_be_deleted p res) e v.counts refl),
  )

  released-IsDoomed :
      (Y : Label) (p : Pointer)
      → IsDoomed v.labels t p
      → IsDoomed (λ a. release_label t Y (v.labels a)) t p
  released-IsDoomed Y none h = h
  released-IsDoomed Y (some p) h = ap (release_label t Y) h

  -- The decrement, and what is done with the claimed nodes.
  delete_or_chain-Keeps :
      (b : Bool) (nodes p : Pointer) (res : Option T) (count' : ℕ)
      → s.places t ≡ counting nodes p res
      → Has s.heap v.labels m.in_hand t (counting nodes p res)
      → res ≡ m.in_hand t
      → (b ≡ true → count' ≡ 0)
      → count' ≡ threads_counted n (update s.places t (delete_or_chain b nodes p res)) % 2 ^ 32
      → Keeps n silent m
          (goes t (delete_or_chain b nodes p res) (record s { threads_in_pop = count' }))
  delete_or_chain-Keeps true nodes p res count' e (d, (xs, chain)) r test cn =
      let labels' : ℕ → Label = λ a. release_label t (condemned t) (v.labels a) in
      (
        tt,
        relabels_all (claimed t) (condemned t) labels' s.to_be_deleted count'
            (deleting_nodes nodes p res) v.pending_cells
            (λ a. release_label-cases t (condemned t) (v.labels a)) (λ e. cc) (λ e. cc)
            (λ u ne e. ne (sym e))
            (λ u ne one sh. absurd (
              none_left n t few mine s v.above u ne (deleting_nodes nodes p res)
                (sym (test refl) ∙ cn) one))
            (Seg-relabel pending pending v.labels labels' s.heap s.to_be_deleted none
              v.pending_cells (λ a l. ap (release_label t (condemned t)) l) v.pending_chain)
            (
              released-IsDoomed (condemned t) p d,
              (
                xs,
                Seg-relabel (claimed t) (condemned t) v.labels labels' s.heap nodes none xs
                    (λ a l.
                      ap (release_label t (condemned t)) l ∙ release_label-claimed t (condemned t))
                    chain,
              ),
            )
            r cn,
      )
  delete_or_chain-Keeps false none p res count' e (d, h) r test cn =
      (tt, quiet n t mine m s v count' (deleting p res) (d, tt) r cn)
  delete_or_chain-Keeps false (some q) p res count' e (d, (xs, chain)) r test cn = (
    tt,
    quiet n t mine m s v count' (walking q q (deletes p) res) (d, ([], xs, chain, chain)) r cn,
  )

  delete_or_chain-counted :
      (b : Bool) (nodes p : Pointer) (res : Option T) → counted (delete_or_chain b nodes p res) ≡ 0
  delete_or_chain-counted true nodes p res = refl
  delete_or_chain-counted false none p res = refl
  delete_or_chain-counted false (some q) p res = refl

  pub counting-Keeps :
      (nodes p : Pointer) (res : Option T)
      → s.places t ≡ counting nodes p res
      → Has s.heap v.labels m.in_hand t (counting nodes p res)
      → res ≡ m.in_hand t
      → (let left = decrement s.threads_in_pop in
          Keeps n silent m
            (goes t (delete_or_chain (left == 0) nodes p res) (record s { threads_in_pop = left })))
  counting-Keeps nodes p res e h r =
      delete_or_chain-Keeps _ nodes p res _ e h r (==_iff (decrement s.threads_in_pop) 0).0 (
        exits n t mine s (counting nodes p res) _ e refl (delete_or_chain-counted _ nodes p res)
          v.counts)
