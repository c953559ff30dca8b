-- ===== src/RefCountStack/CountSteps.antt =====
-- The steps of `pop` with a node that it took: the data and the external count.
use mathlib.Core.Path.{subst}
use mathlib.Core.Option.{some-injective}
use concurrency_in_action.Common.{
  ℕ, ◌+◌, ◌-◌, ◌%◌, ◌^◌, ◌<◌, ◌≤◌, ◌≡◌, ◌≢◌, refl, sym, ap, ◌∙◌, Bool, true, false, ==_iff, Option,
  none, some, update, update_ne, update_self, arith,
}
use concurrency_in_action.StackModel.{Model, silent}
use concurrency_in_action.RefCountStack.{
  Node, returns, returned, taking, adding, deleting, State, int_max, goes, use_node, write,
  delete_if, add_count,
}
use concurrency_in_action.RefCountStack.Labels.{
  settled, doomed, linked, taken, references, Balanced, Chain-away, Chain-IsOut,
}
use concurrency_in_action.RefCountStack.Roles.{Links, Has, Inv, rebuild}
use concurrency_in_action.RefCountStack.Frames.{IsOf, Has-other}
use concurrency_in_action.RefCountStack.Events.{return_event, add_event, Keeps}
use concurrency_in_action.RefCountStack.References.{use_node_elim, recount}
use concurrency_in_action.RefCountStack.Settles.{settles}

-- The tests of the internal count.
add_last :
    (x c drops i : ℕ)
    → x ≡ 2 + c + drops
    → i ≡ (2 ^ 32 - drops) % 2 ^ 32
    → x ≤ int_max
    → i ≡ (2 ^ 32 - (x - 2)) % 2 ^ 32
    → c ≡ 0
add_last x c drops i split short le test = omega (arith, split, short, le, test)

add_more :
    (x c drops i : ℕ)
    → x ≡ 2 + c + drops
    → i ≡ (2 ^ 32 - drops) % 2 ^ 32
    → x ≤ int_max
    → i ≢ (2 ^ 32 - (x - 2)) % 2 ^ 32
    → ((i + (x - 2)) % 2 ^ 32 ≡ c) × (1 ≤ c)
add_more x c drops i split short le test =
    (omega (arith, split, short, le, test), omega (arith, split, short, le, test))

module _ {ℓ} {T : Type ℓ} (n t : ℕ) (few : n < 2 ^ 32) (mine : t < n) (m : Model T) (s : State T)
    (v : Inv n m s) where
  taken_ne_linked : (u x e : ℕ) → taken u x ≢ linked e
  taken_ne_linked u x e h = cc

  -- `res.swap(ptr->data)`.
  pub taking-Keeps :
      (x p : ℕ)
      → s.places t ≡ taking x p
      → Has s.heap v.labels m.in_hand t (taking x p)
      → Keeps n silent m (
          use_node
            (s.heap p)
            (λ k. goes t (adding x p k.data_) (write p (record k { data_ = none }) s)))
  taking-Keeps x p e (l, (k, at, dat)) =
      let k' : Node T = record k { data_ = none } in
      let away = λ (a : ℕ) (ne : p ≢ a). update_ne s.heap p a (some k') ne in
      let (z, at', (drops, split, short, le, u)) =
        subst (λ L. Balanced L (s.heap p) (references n s.places p)) l (v.balanced p) in
      let count = recount n t mine m s v p (taking x p) (adding x p k.data_) e in
      let internal = ap (λ (y : Node T). y.internal_count) (some-injective k z (sym at ∙ at')) in
      use_node_elim (λ o r. Keeps n silent m r) _ (s.heap p) k at
        (
          tt,
          rebuild n t mine m m s v p v.labels (update s.heap p (some k')) s.head (taking x p)
              (adding x p k.data_) v.cells e (λ a ne. (refl, away a ne)) (λ a ne. refl)
              (λ u ne. refl)
              (λ u ne q at.
                Has-other s.heap (update s.heap p (some k')) v.labels v.labels m.in_hand m.in_hand u
                  p (λ a ne. (refl, away a ne)) refl (λ L o e. e)
                  (λ L o e. absurd (ne (sym (subst (IsOf u) (sym e ∙ l) o)))) q
                  (λ next one k.
                    subst (λ L. Links L (update s.heap p (some k') p) next) (sym l) tt))
              (rw (l, update_self s.heap p (some k'))
                (k', refl, (drops, omega (arith, split, count), internal ∙ short, le, u)))
              (Chain-away s.heap (update s.heap p (some k')) v.labels v.labels p s.head v.cells
                (λ a ne. (refl, away a ne))
                (Chain-IsOut s.heap v.labels p s.head v.cells
                  (λ e h. taken_ne_linked t x e (sym l ∙ h)) v.stack_chain)
                v.stack_chain)
              v.contents_eq (l, tt) dat,
        )

  -- `fetch_add`, and the test of what it returns.
  add_count-Keeps :
      (b : Bool) (x p : ℕ) (res : Option T) (k k' : Node T) (drops : ℕ)
      → s.places t ≡ adding x p res
      → v.labels p ≡ taken t x
      → res ≡ m.in_hand t
      → x ≡ 2 + references n s.places p + drops
      → k.internal_count ≡ (2 ^ 32 - drops) % 2 ^ 32
      → x ≤ int_max
      → k'.internal_count ≡ (k.internal_count + (x - 2)) % 2 ^ 32
      → (b ≡ true → k.internal_count ≡ (2 ^ 32 - (x - 2)) % 2 ^ 32)
      → (b ≡ false → k.internal_count ≢ (2 ^ 32 - (x - 2)) % 2 ^ 32)
      → Keeps n
          (return_event b t (returns res))
          m
          (goes t (delete_if b p (returns res)) (write p k' s))
  add_count-Keeps true x p res k k' drops e l r split short le new yes_last not_last =
      let count = recount n t mine m s v p (adding x p res) (deleting p (returns res)) e in
      let unused = add_last x _ drops k.internal_count split short le (yes_last refl) in
      (
        tt,
        settles n t mine m s v p (taken t x) (doomed t) (some k') (adding x p res)
            (deleting p (returns res)) e (λ a ne. refl) l (λ e h. taken_ne_linked t x e h)
            (λ u ne e. ne (sym e)) (λ next. tt) (k', refl, (omega (arith, count, unused), tt))
            (update_self v.labels p (doomed t), tt) r,
      )
  add_count-Keeps false x p res k k' drops e l r split short le new yes_last not_last =
      let count = recount n t mine m s v p (adding x p res) (returned res) e in
      let (sum, some_left) = add_more x _ drops k.internal_count split short le (not_last refl) in
      (
        r,
        settles n t mine m s v p (taken t x) settled (some k') (adding x p res) (returned res) e
            (λ a ne. refl) l (λ e h. taken_ne_linked t x e h) (λ u ne e. ne (sym e)) (λ next. tt)
            (k', refl, (omega (arith, new, sum, count), omega (arith, some_left, count), tt)) tt tt,
      )

  false_ne_true : (b : Bool) → b ≡ false → b ≡ true → ⊥
  false_ne_true b e f = cc

  pub adding-Keeps :
      (x p : ℕ) (res : Option T)
      → s.places t ≡ adding x p res
      → v.labels p ≡ taken t x
      → res ≡ m.in_hand t
      → Keeps n
          (add_event t x res (s.heap p))
          m
          (use_node (s.heap p) (λ k. add_count t x p res k s))
  adding-Keeps x p res e l r =
      let (k, at, (drops, split, short, le, u)) =
        subst (λ L. Balanced L (s.heap p) (references n s.places p)) l (v.balanced p) in
      let test = ==_iff k.internal_count ((2 ^ 32 - (x - 2)) % 2 ^ 32) in
      use_node_elim (λ o z. Keeps n (add_event t x res o) m z) _ (s.heap p) k at
        (add_count-Keeps _ x p res k _ drops e l r split short le refl test.0
          (λ differ equal. false_ne_true _ differ (test.1 equal)))
