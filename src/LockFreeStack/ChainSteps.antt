-- ===== src/LockFreeStack/ChainSteps.antt =====
-- The steps of `chain_pending_nodes`.
use mathlib.Core.Path.{subst}
use mathlib.Core.List.{append_assoc}
use mathlib.Core.Option.{some-injective}
use concurrency_in_action.Common.{
  ℕ, ◌<◌, ◌≡◌, refl, sym, ap, ◌∙◌, ◌⊎◌, inl, inr, Bool, true, false, if◌then◌else◌, Option, none,
  some, List, [], ◌∷◌, ◌++◌, update,
}
use concurrency_in_action.Nodes.{Node, Pointer}
use concurrency_in_action.StackModel.{Model, silent}
use concurrency_in_action.LockFreeStack.{
  After, deletes, leaves, Place, walking, linking, chaining, State, same, goes, deref, write, walk,
  chain, after_chain,
}
use concurrency_in_action.LockFreeStack.Count.{counted, stays}
use concurrency_in_action.LockFreeStack.Labels.{
  Label, free, stacked, pending, claimed, Change, release_label, release_label-cases,
  release_label-claimed,
}
use concurrency_in_action.LockFreeStack.Chains.{Seg, Seg-Change, Seg-join, Seg-last, Seg-set_last}
use concurrency_in_action.LockFreeStack.Roles.{MayFollow, Has, Carries, Inv}
use concurrency_in_action.LockFreeStack.Rebuild.{rebuild, quiet}
use concurrency_in_action.LockFreeStack.Writes.{use_node_elim, writes}
use concurrency_in_action.LockFreeStack.Events.{Keeps, exchanged-eq}

module _ {ℓ} {T : Type ℓ} (n t : ℕ) (mine : t < n) (m : Model T) (s : State T) (v : Inv n m s) where
  -- A round of the walk to the last node.
  walk-Keeps :
      (next : Pointer) (first last : ℕ) (a : After) (res : Option T) (d : Option T)
      (xs ys : List (ℕ × Option T))
      → s.places t ≡ walking first last a res
      → MayFollow v.labels t a
      → Seg s.heap v.labels (claimed t) (some first) (xs ++ ((last, d) ∷ ys)) none
      → Seg s.heap v.labels (claimed t) next ys none
      → res ≡ m.in_hand t
      → Keeps n silent m (goes t (walk first last next a res) s)
  walk-Keeps none first last a res d xs [] e f all rest r = (
    tt,
    quiet n t mine m s v s.threads_in_pop (linking (some first) (some last) a res)
        (f, (xs, d, none, all)) r
        (stays n t mine s (walking first last a res) (linking (some first) (some last) a res) e
          v.counts refl),
  )
  walk-Keeps none first last a res d xs (y ∷ ys) e f all (bad, l, out, more) r = absurd (cc)
  walk-Keeps (some next) first last a res d xs ys e f all rest r = (
    tt,
    quiet n t mine m s v s.threads_in_pop (walking first next a res)
        (
          f,
          (
            xs ++ ((last, d) ∷ []),
            ys,
            subst (λ zs. Seg s.heap v.labels (claimed t) (some first) zs none)
                (sym (append_assoc xs ((last, d) ∷ []) ys)) all,
            rest,
          ),
        )
        r (stays n t mine s (walking first last a res) (walking first next a res) e v.counts refl),
  )

  pub walking-Keeps :
      (first last : ℕ) (a : After) (res : Option T)
      → s.places t ≡ walking first last a res
      → Has s.heap v.labels m.in_hand t (walking first last a res)
      → res ≡ m.in_hand t
      → Keeps n silent m (deref (some last) s (λ k. goes t (walk first last k.next a res) s))
  walking-Keeps first last a res e (f, (xs, [], all, (bad, u))) r = absurd (cc)
  walking-Keeps first last a res e (f, (xs, (b, d) ∷ ys, all, (at, l, out, (k, here, dat, rest))))
        r =
      let same_node = some-injective last b at in
      use_node_elim (λ o z. Keeps n silent m z) _ (s.heap last) k (ap s.heap same_node ∙ here)
        (walk-Keeps k.next first last a res d xs ys e f
          (subst (λ q. Seg s.heap v.labels (claimed t) (some first) (xs ++ ((q, d) ∷ ys)) none)
            (sym same_node) all)
          rest r)

  -- The write of `last->next`.
  link_last-Keeps :
      (first : Pointer) (l : ℕ) (a : After) (res : Option T) (k : Node T) (from : Place T)
      (xs : List (ℕ × Option T)) (d : Option T) (end : Pointer)
      → s.places t ≡ from
      → counted (chaining first (some l) a res) ≡ counted from
      → MayFollow v.labels t a
      → s.heap l ≡ some k
      → v.labels l ≡ claimed t
      → Seg s.heap v.labels (claimed t) first (xs ++ ((l, d) ∷ [])) end
      → res ≡ m.in_hand t
      → Inv n m (record s {
        heap = update s.heap l (some (record k { next = s.to_be_deleted }));
        places = update s.places t (chaining first (some l) a res);
      })
  link_last-Keeps first l a res k from xs d end e same_count f at label chain r =
      writes n t mine m s v (claimed t) l (record k { next = s.to_be_deleted })
        (chaining first (some l) a res) label (λ e. cc) (λ e. cc) (λ u ne e. ne (sym e))
        (
          f,
          (
            xs,
            d,
            s.to_be_deleted,
            Seg-set_last (claimed t) v.labels s.heap first end s.to_be_deleted l d k xs at chain,
          ),
        )
        r (stays n t mine s from (chaining first (some l) a res) e v.counts same_count)

  pub linking-Keeps :
      (first last : Pointer) (a : After) (res : Option T)
      → s.places t ≡ linking first last a res
      → Has s.heap v.labels m.in_hand t (linking first last a res)
      → res ≡ m.in_hand t
      → Keeps n silent m (
          deref last s (λ k.
            goes t
              (chaining first last a res)
              (write last (record k { next = s.to_be_deleted }) s)))
  linking-Keeps first none a res e h r = tt
  linking-Keeps first (some l) a res e (f, (xs, d, end, chain)) r =
      let (label, (k, at, dat, link)) =
        Seg-last (claimed t) v.labels s.heap first end l d xs chain in
      use_node_elim (λ o z. Keeps n silent m z) _ (s.heap l) k at
        (
          tt,
          link_last-Keeps first l a res k (linking first (some l) a res) xs d end e refl f at label
              chain r,
        )

  released_follow :
      (a : After)
      → MayFollow v.labels t a
      → MayFollow (λ b. release_label t pending (v.labels b)) t a
  released_follow (deletes none) h = h
  released_follow (deletes (some p)) h = ap (release_label t pending) h
  released_follow leaves h = h

  after_chain-Has :
      (labels : ℕ → Label) (a : After) (res : Option T)
      → MayFollow labels t a
      → Has s.heap labels m.in_hand t (after_chain a res)
  after_chain-Has labels (deletes p) res h = (h, tt)
  after_chain-Has labels leaves res h = tt

  after_chain-Carries :
      (got : Option T) (a : After) (res : Option T) → res ≡ got → Carries got (after_chain a res)
  after_chain-Carries got (deletes p) res h = h
  after_chain-Carries got leaves res h = h

  after_chain-counted :
      (first last : Pointer) (a : After) (res : Option T)
      → counted (after_chain a res) ≡ counted (chaining first last a res)
  after_chain-counted first last (deletes p) res = refl
  after_chain-counted first last leaves res = refl

  chain-Keeps :
      (b : Bool) (first : Pointer) (l : ℕ) (a : After) (res : Option T) (k : Node T)
      (xs : List (ℕ × Option T)) (d : Option T)
      → s.places t ≡ chaining first (some l) a res
      → MayFollow v.labels t a
      → s.heap l ≡ some k
      → v.labels l ≡ claimed t
      → Seg s.heap v.labels (claimed t) first (xs ++ ((l, d) ∷ [])) k.next
      → res ≡ m.in_hand t
      → (b ≡ true → s.to_be_deleted ≡ k.next)
      → Keeps n silent m (chain b t first (some l) a res k s)
  chain-Keeps false first l a res k xs d e f at label segment r found = (
    tt,
    link_last-Keeps first l a res k (chaining first (some l) a res) xs d k.next e refl f at label
        segment r,
  )
  chain-Keeps true first l a res k xs d e f at label segment r found =
      let labels' : ℕ → Label = λ b. release_label t pending (v.labels b) in
      let c : Change (claimed t) pending v.labels labels' s.heap s.heap = change in
      (
        tt,
        rebuild n t mine m m s v (claimed t) pending labels' s.heap s.head first s.threads_in_pop
            (after_chain a res) v.cells ((xs ++ ((l, d) ∷ [])) ++ v.pending_cells) c
            (λ u ne e. ne (sym e)) (λ u ne. refl) (λ u ne one sh. (tt, λ e. cc)) allocated
            (Seg-Change (claimed t) pending stacked v.labels labels' s.heap s.heap s.head none
              v.cells c (λ e. cc) v.stack_chain)
            v.contents_eq
            (Seg-join (claimed t) pending v.labels labels' s.heap first k.next none
              (xs ++ ((l, d) ∷ [])) v.pending_cells
              (λ b y. ap (release_label t pending) y ∙ release_label-claimed t pending)
              (λ b y. ap (release_label t pending) y) (λ e. cc) segment
              (subst (λ q. Seg s.heap v.labels pending q v.pending_cells none) (found refl)
                v.pending_chain))
            (after_chain-Has labels' a res (released_follow a f))
            (after_chain-Carries (m.in_hand t) a res r)
            (stays n t mine s (chaining first (some l) a res) (after_chain a res) e v.counts
              (after_chain-counted first (some l) a res)),
      )
    where
      change :
          (b : ℕ)
          → ((release_label t pending (v.labels b) ≡ v.labels b) × (s.heap b ≡ s.heap b))
            ⊎ ((v.labels b ≡ claimed t) × (release_label t pending (v.labels b) ≡ pending))
      change b = elim (release_label-cases t pending (v.labels b)) [
        | inl y ↦ inl (y, refl)
        | inr y ↦ inr y
      ]

      allocated :
          (b : ℕ)
          → (release_label t pending (v.labels b) ≡ free) ⊎ ((q : Node T) × (s.heap b ≡ some q))
      allocated b = elim (v.allocated b) [
        | inr h ↦ inr h
        | inl h ↦ inl (ap (release_label t pending) h)
      ]

  pub chaining-Keeps :
      (w : Bool) (first last : Pointer) (a : After) (res : Option T)
      → s.places t ≡ chaining first last a res
      → Has s.heap v.labels m.in_hand t (chaining first last a res)
      → res ≡ m.in_hand t
      → Keeps n silent m (
          deref last s
            (λ k. chain (if w then false else same s.to_be_deleted k.next) t first last a res k s))
  chaining-Keeps w first none a res e h r = tt
  chaining-Keeps w first (some l) a res e (f, (xs, d, end, segment)) r =
      let (label, (k, at, dat, link)) =
        Seg-last (claimed t) v.labels s.heap first end l d xs segment in
      use_node_elim (λ o z. Keeps n silent m z) _ (s.heap l) k at
        (chain-Keeps _ first l a res k xs d e f at label
          (subst (λ q. Seg s.heap v.labels (claimed t) first (xs ++ ((l, d) ∷ [])) q) (sym link)
            segment)
          r (exchanged-eq w s.to_be_deleted k.next))
