-- ===== src/RefCountStack/Settles.antt =====
-- A step at a node that is in no chain.
use mathlib.Core.Path.{subst}
use concurrency_in_action.Common.{
  ℕ, ◌<◌, ◌≡◌, ◌≢◌, refl, sym, ◌∙◌, Option, update, update_ne, update_self,
}
use concurrency_in_action.StackModel.{Model}
use concurrency_in_action.RefCountStack.{CountedPtr, Node, Place, State}
use concurrency_in_action.RefCountStack.Labels.{
  Label, linked, refers, references, Balanced, Chain-away, Chain-IsOut,
}
use concurrency_in_action.RefCountStack.Roles.{Links, Has, Carries, Inv, rebuild}
use concurrency_in_action.RefCountStack.Frames.{IsOf, others_relabel}

module _ {ℓ} {T : Type ℓ} (n t : ℕ) (mine : t < n) (m : Model T) (s : State T) (v : Inv n m s) where
  -- A node that is in no chain gets another label and another count, or is deleted.
  pub settles :
      (p : ℕ) (X Y : Label) (h' : Option (Node T)) (from to : Place T)
      → s.places t ≡ from
      → ((a : ℕ) → p ≢ a → refers a to ≡ refers a from)
      → v.labels p ≡ X
      → ((e : ℕ) → X ≢ linked e)
      → ((u : ℕ) → t ≢ u → IsOf u X → ⊥)
      → ((next : CountedPtr) → Links Y h' next)
      → Balanced Y h' (references n (update s.places t to) p)
      → Has (update s.heap p h') (update v.labels p Y) m.in_hand t to
      → Carries (m.in_hand t) to
      → Inv n m (record s { heap = update s.heap p h'; places = update s.places t to })
  settles p X Y h' from to e keep l un o links bal has ca =
      let away = λ (a : ℕ) (ne : p ≢ a). update_ne s.heap p a h' ne in
      rebuild n t mine m m s v p (update v.labels p Y) (update s.heap p h') s.head from to v.cells e
        (λ a ne. (update_ne v.labels p a Y ne, away a ne)) keep (λ u ne. refl)
        (λ u ne q at.
          others_relabel t s.heap v.labels m.in_hand m.in_hand (λ u ne. refl) (update s.heap p h') p
            X Y away l o u ne q
            (λ next one k.
              subst (λ h. Links Y h next) (sym (update_self s.heap p h')) (links next)))
        (rw (update_self v.labels p Y, update_self s.heap p h') bal)
        (Chain-away s.heap (update s.heap p h') v.labels (update v.labels p Y) p s.head v.cells
          (λ a ne. (update_ne v.labels p a Y ne, away a ne))
          (Chain-IsOut s.heap v.labels p s.head v.cells (λ e h. un e (sym l ∙ h)) v.stack_chain)
          v.stack_chain)
        v.contents_eq has ca
