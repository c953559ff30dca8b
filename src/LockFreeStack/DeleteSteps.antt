-- ===== src/LockFreeStack/DeleteSteps.antt =====
-- The steps of `delete_nodes`, `delete old_head`, and the end of `try_reclaim`.
use mathlib.Core.Path.{subst}
use mathlib.Core.Option.{some-injective}
use concurrency_in_action.Common.{
  ℕ, ◌<◌, ◌≡◌, ◌≢◌, refl, sym, ap, ◌∙◌, Option, none, some, [], ◌∷◌, update, update_ne,
}
use concurrency_in_action.Nodes.{Pointer}
use concurrency_in_action.StackModel.{Model, silent, gave}
use concurrency_in_action.LockFreeStack.{
  returned, deleting_nodes, deleting, leaving, State, goes, delete_nodes, delete, and_goes, chain,
  decrement,
}
use concurrency_in_action.LockFreeStack.Count.{stays, exits}
use concurrency_in_action.LockFreeStack.Labels.{free, doomed, condemned}
use concurrency_in_action.LockFreeStack.Chains.{IsOut, Seg-removed}
use concurrency_in_action.LockFreeStack.Roles.{IsDoomed, Has, Inv}
use concurrency_in_action.LockFreeStack.Rebuild.{quiet}
use concurrency_in_action.LockFreeStack.Writes.{node_at, use_node_elim, deletes_node}
use concurrency_in_action.LockFreeStack.Events.{Keeps}

module _ {ℓ} {T : Type ℓ} (n t : ℕ) (mine : t < n) (m : Model T) (s : State T) (v : Inv n m s) where
  -- A round of `delete_nodes`.
  pub deleting_nodes-Keeps :
      (nodes p : Pointer) (res : Option T)
      → s.places t ≡ deleting_nodes nodes p res
      → Has s.heap v.labels m.in_hand t (deleting_nodes nodes p res)
      → res ≡ m.in_hand t
      → Keeps n silent m (delete_nodes nodes p t res s)
  deleting_nodes-Keeps none p res e (d, h) r = (
    tt,
    quiet n t mine m s v s.threads_in_pop (deleting p res) (d, tt) r
        (stays n t mine s (deleting_nodes none p res) (deleting p res) e v.counts refl),
  )
  deleting_nodes-Keeps (some q) p res e (d, ([], (bad, u))) r = absurd (cc)
  deleting_nodes-Keeps (some q) p res e (d, ((a, x) ∷ xs, (at, l, out, (k, here, dat, chain)))) r =
      let same_node = some-injective q a at in
      let here_q = ap s.heap same_node ∙ here in
      let l_q = ap v.labels same_node ∙ l in
      use_node_elim (λ o z. Keeps n silent m z) _ (s.heap q) k here_q
        (use_node_elim (λ o z. Keeps n silent m (and_goes t (deleting_nodes k.next p res) z)) _
          (s.heap q) k here_q
          (
            tt,
            deletes_node n t mine m s v (condemned t) q (deleting_nodes k.next p res) l_q (λ e. cc)
                (λ e. cc) (λ u ne e. ne (sym e)) (λ h. h)
                (
                  still_doomed q p l_q d,
                  (
                    xs,
                    Seg-removed (condemned t) free v.labels s.heap q k.next none xs
                        (subst (λ y. IsOut y xs) (sym same_node) out) chain,
                  ),
                )
                r
                (stays n t mine s (deleting_nodes (some q) p res) (deleting_nodes k.next p res) e
                  v.counts refl),
          ))
    where
      still_doomed :
          (q : ℕ) (p : Pointer)
          → v.labels q ≡ condemned t
          → IsDoomed v.labels t p
          → IsDoomed (update v.labels q free) t p
      still_doomed q none lq h = h
      still_doomed q (some p) lq h =
          update_ne v.labels q p free (λ same. differ (sym lq ∙ ap v.labels same ∙ h)) ∙ h
        where
          differ : condemned t ≢ doomed t
          differ e = cc

  -- `delete old_head`, and the return.
  pub deleting-Keeps :
      (p : Pointer) (res : Option T)
      → s.places t ≡ deleting p res
      → IsDoomed v.labels t p
      → res ≡ m.in_hand t
      → Keeps n (gave t res) m (and_goes t (returned res) (delete p s))
  deleting-Keeps none res e d r = (
    r,
    quiet n t mine m s v s.threads_in_pop (returned res) tt tt
        (stays n t mine s (deleting none res) (returned res) e v.counts refl),
  )
  deleting-Keeps (some p) res e d r =
      let (k, at) = node_at v.labels s.heap p (doomed t) v.allocated d (λ e. cc) in
      use_node_elim (λ o z. Keeps n (gave t res) m (and_goes t (returned res) z)) _ (s.heap p) k at
        (
          r,
          deletes_node n t mine m s v (doomed t) p (returned res) d (λ e. cc) (λ e. cc)
              (λ u ne e. ne (sym e)) (λ h. h) tt tt
              (stays n t mine s (deleting (some p) res) (returned res) e v.counts refl),
        )

  pub leaving-Keeps :
      (res : Option T)
      → s.places t ≡ leaving res
      → res ≡ m.in_hand t
      → Keeps n
          (gave t res)
          m
          (goes t (returned res) (record s { threads_in_pop = decrement s.threads_in_pop }))
  leaving-Keeps res e r = (
    r,
    quiet n t mine m s v _ (returned res) tt tt
        (exits n t mine s (leaving res) (returned res) e refl refl v.counts),
  )
