-- ===== src/RefCountStack/DropSteps.antt =====
-- The step of `pop` that drops a reference, and `delete`.
use mathlib.Core.Path.{subst}
use mathlib.Core.Option.{some-injective}
use concurrency_in_action.Common.{
  ℕ, suc, ◌+◌, ◌-◌, ◌%◌, ◌^◌, ◌<◌, ◌≤◌, ◌≡◌, ◌≢◌, refl, sym, ap, ◌∙◌, Bool, true, false, ◌==◌,
  ==_iff, Option, none, some, update, update_elim, update_ne, update_self, arith,
}
use concurrency_in_action.StackModel.{Model, silent}
use concurrency_in_action.RefCountStack.{
  CountedPtr, Node, After, returns, repeats, increasing, dropping, deleting, State, same, int_max,
  goes, use_node, write, after_place, delete_if, sub_count,
}
use concurrency_in_action.RefCountStack.Labels.{
  Label, free, settled, fresh, doomed, linked, taken, refers, references, At, IsSplit, Balanced,
  Balanced-node, Chain-counted,
}
use concurrency_in_action.RefCountStack.Roles.{Has, ToReturn, Carries, Inv, rebuild}
use concurrency_in_action.RefCountStack.Frames.{others_count, is_one_self}
use concurrency_in_action.RefCountStack.Events.{return_event, Keeps}
use concurrency_in_action.RefCountStack.References.{
  is_one_ne, use_node_elim, references-le, recount, one-le-references,
}
use concurrency_in_action.RefCountStack.Settles.{settles}

-- The test of the internal count.
drop_short :
    (base x c drops i : ℕ)
    → 1 ≤ base
    → x ≡ base + suc c + drops
    → i ≡ (2 ^ 32 - drops) % 2 ^ 32
    → x ≤ int_max
    → (i ≢ 1) × ((i + (2 ^ 32 - 1)) % 2 ^ 32 ≡ (2 ^ 32 - suc drops) % 2 ^ 32)
drop_short base x c drops i one split short le =
    (λ bad. absurd (omega (arith, split, short, le, bad)), omega (arith, split, short, le))

module _ {ℓ} {T : Type ℓ} (n t : ℕ) (few : n < 2 ^ 32) (mine : t < n) (m : Model T) (s : State T)
    (v : Inv n m s) where
  false_ne_true : (b : Bool) → b ≡ false → b ≡ true → ⊥
  false_ne_true b e f = cc

  repeats-Carries :
      (b : Bool) (p : ℕ) (c : CountedPtr) → Carries (m.in_hand t) (delete_if b p (repeats c))
  repeats-Carries true p c = tt
  repeats-Carries false p c = tt

  -- `fetch_sub` on a node whose external count is still its own: it is never the last reference.
  drop_counted :
      (L : Label) (base x p drops : ℕ) (c : CountedPtr) (k k' : Node T)
      → s.places t ≡ dropping p c
      → v.labels p ≡ L
      → s.heap p ≡ some k
      → 1 ≤ base
      → x ≡ base + references n s.places p + drops
      → k.internal_count ≡ (2 ^ 32 - drops) % 2 ^ 32
      → x ≤ int_max
      → k'.data_ ≡ k.data_
      → k'.next ≡ k.next
      → k'.internal_count ≡ (k.internal_count + (2 ^ 32 - 1)) % 2 ^ 32
      → ((h : Option (Node T)) (r : ℕ) → At h (λ y. IsSplit base x r y) → Balanced L h r)
      → Keeps n silent m (goes t (delete_if (k.internal_count == 1) p (repeats c)) (write p k' s))
  drop_counted L base x p drops c k k' e l at one split short le dat nxt new balance =
      let count = recount n t mine m s v p (dropping p c) (increasing c) e in
      let one_ref = is_one_self p in
      let left = references n (update s.places t (increasing c)) p in
      let split' : x ≡ base + suc left + drops = omega (arith, split, count, one_ref) in
      let (not_last, short') = drop_short base x left drops k.internal_count one split' short le in
      let test : (k.internal_count == 1) ≡ false = ground (arith, not_last) in
      rw test (
        tt,
        rebuild n t mine m m s v p v.labels (update s.heap p (some k')) s.head (dropping p c)
            (increasing c) v.cells e (λ a ne. (refl, update_ne s.heap p a (some k') ne))
            (λ a ne. sym (is_one_ne a p (λ h. ne (sym h)))) (λ u ne. refl)
            (λ u ne q at'.
              others_count t s.heap v.labels m.in_hand m.in_hand (λ u ne. refl) p k k' at dat nxt u
                ne q)
            (rw (l, update_self s.heap p (some k'))
              (balance (some k') left
                (k', refl, (suc drops, omega (arith, split'), new ∙ short', le, tt))))
            (Chain-counted s.heap (update s.heap p (some k')) v.labels s.head v.cells bodies
              v.stack_chain)
            v.contents_eq tt tt,
      )
    where
      bodies :
          (a : ℕ) (y : Node T)
          → s.heap a ≡ some y
          → (y' : Node T) × (update s.heap p (some k') a ≡ some y')
            × (y'.data_ ≡ y.data_)
            × (y'.next ≡ y.next)
      bodies =
          update_elim
            (λ a h.
              (y : Node T)
              → s.heap a ≡ some y
              → (y' : Node T) × (h ≡ some y') × (y'.data_ ≡ y.data_) × (y'.next ≡ y.next))
            s.heap p (some k')
            (λ y here.
              let eq = some-injective k y (sym at ∙ here) in
              (
                k',
                refl,
                dat ∙ ap (λ (z : Node T). z.data_) eq,
                nxt ∙ ap (λ (z : Node T). z.next) eq,
              ))
            (λ a ne y here. (y, here, refl, refl))

  -- `fetch_sub` on a node whose internal count is the number of its references.
  drop_settled :
      (b : Bool) (p : ℕ) (c : CountedPtr) (k k' : Node T)
      → s.places t ≡ dropping p c
      → v.labels p ≡ settled
      → k.internal_count ≡ references n s.places p
      → k'.internal_count ≡ (k.internal_count + (2 ^ 32 - 1)) % 2 ^ 32
      → (b ≡ true → k.internal_count ≡ 1)
      → (b ≡ false → k.internal_count ≢ 1)
      → Keeps n silent m (goes t (delete_if b p (repeats c)) (write p k' s))
  drop_settled true p c k k' e l same new last not_last =
      let count = recount n t mine m s v p (dropping p c) (deleting p (repeats c)) e in
      let one_ref = is_one_self p in
      let one = last refl in
      (
        tt,
        settles n t mine m s v p settled (doomed t) (some k') (dropping p c)
            (deleting p (repeats c)) e (λ a ne. sym (is_one_ne a p (λ h. ne (sym h)))) l
            settled_ne_linked (λ u ne h. h) (λ next. tt)
            (k', refl, (omega (arith, count, one_ref, one, same), tt))
            (update_self v.labels p (doomed t), tt) tt,
      )
    where
      settled_ne_linked : (e : ℕ) → settled ≢ linked e
      settled_ne_linked e h = cc
  drop_settled false p c k k' e l same new last not_last =
      let count = recount n t mine m s v p (dropping p c) (increasing c) e in
      let one_ref = is_one_self p in
      let more = not_last refl in
      let bound = references-le n p s.places in
      (
        tt,
        settles n t mine m s v p settled settled (some k') (dropping p c) (increasing c) e
            (λ a ne. sym (is_one_ne a p (λ h. ne (sym h)))) l settled_ne_linked (λ u ne h. h)
            (λ next. tt)
            (
              k',
              refl,
              (
                omega (arith, new, count, one_ref, same, bound, few),
                omega (arith, count, one_ref, same, more),
                tt,
              ),
            )
            tt tt,
      )
    where
      settled_ne_linked : (e : ℕ) → settled ≢ linked e
      settled_ne_linked e h = cc

  drop_labelled :
      (L : Label) (p : ℕ) (c : CountedPtr) (k : Node T)
      → s.places t ≡ dropping p c
      → v.labels p ≡ L
      → s.heap p ≡ some k
      → 1 ≤ references n s.places p
      → Balanced L (s.heap p) (references n s.places p)
      → Keeps n silent m (sub_count t p c k s)
  drop_labelled free p c k e l at le (z, u) = absurd (omega (arith, le, z))
  drop_labelled (fresh u) p c k e l at le (y, at', (i, z, w)) = absurd (omega (arith, le, z))
  drop_labelled (doomed u) p c k e l at le (y, at', (z, w)) = absurd (omega (arith, le, z))
  drop_labelled (linked x) p c k e l at le (y, at', (drops, split, short, bound, w)) =
      drop_counted (linked x) 1 x p drops c k _ e l at (omega arith) split
        (ap (λ (z : Node T). z.internal_count) (some-injective k y (sym at ∙ at')) ∙ short) bound
        refl refl refl (λ h r b. b)
  drop_labelled (taken u x) p c k e l at le (y, at', (drops, split, short, bound, w)) =
      drop_counted (taken u x) 2 x p drops c k _ e l at (omega arith) split
        (ap (λ (z : Node T). z.internal_count) (some-injective k y (sym at ∙ at')) ∙ short) bound
        refl refl refl (λ h r b. b)
  drop_labelled settled p c k e l at le (y, at', (i, pos, w)) =
      let test = ==_iff k.internal_count 1 in
      drop_settled _ p c k _ e l
        (ap (λ (z : Node T). z.internal_count) (some-injective k y (sym at ∙ at')) ∙ i) refl test.0
        (λ differ equal. false_ne_true _ differ (test.1 equal))

  pub dropping-Keeps :
      (p : ℕ) (c : CountedPtr)
      → s.places t ≡ dropping p c
      → Keeps n silent m (use_node (s.heap p) (λ k. sub_count t p c k s))
  dropping-Keeps p c e =
      let le = one-le-references n t mine m s v p (dropping p c) e (is_one_self p) in
      let (k, at) = Balanced-node (v.labels p) (s.heap p) _ (v.balanced p) le in
      use_node_elim (λ o z. Keeps n silent m z) _ (s.heap p) k at
        (drop_labelled (v.labels p) p c k e refl at le (v.balanced p))

  -- `delete ptr`.
  delete-Keeps :
      (p : ℕ) (a : After T)
      → s.places t ≡ deleting p a
      → v.labels p ≡ doomed t
      → ((b : ℕ) → refers b (after_place a) ≡ 0)
      → Has (update s.heap p none) (update v.labels p free) m.in_hand t (after_place a)
      → Carries (m.in_hand t) (after_place a)
      → Inv n m
          (record s { heap = update s.heap p none; places = update s.places t (after_place a) })
  delete-Keeps p a e l none_of has ca =
      let (k, at, (z, u)) =
        subst (λ L. Balanced L (s.heap p) (references n s.places p)) l (v.balanced p) in
      let count = recount n t mine m s v p (deleting p a) (after_place a) e in
      let nothing = none_of p in
      settles n t mine m s v p (doomed t) free none (deleting p a) (after_place a) e
        (λ b ne. none_of b) l (λ e h. doomed_ne_linked e h) (λ u ne e. ne (sym e)) (λ next. tt)
        (omega (arith, count, z, nothing), tt) has ca
    where
      doomed_ne_linked : (e : ℕ) → doomed t ≢ linked e
      doomed_ne_linked e h = cc

  pub deleting-Keeps :
      (p : ℕ) (a : After T)
      → s.places t ≡ deleting p a
      → v.labels p ≡ doomed t
      → ToReturn (m.in_hand t) a
      → Keeps n (return_event false t a) m (
          use_node
            (s.heap p)
            (λ k. goes t (after_place a) (record s { heap = update s.heap p none })))
  deleting-Keeps p a e l r =
      let (k, at, rest) =
        subst (λ L. Balanced L (s.heap p) (references n s.places p)) l (v.balanced p) in
      use_node_elim (λ o z. Keeps n (return_event false t a) m z) _ (s.heap p) k at
        (after_delete a e r)
    where
      after_delete :
          (a : After T)
          → s.places t ≡ deleting p a
          → ToReturn (m.in_hand t) a
          → Keeps n
              (return_event false t a)
              m
              (goes t (after_place a) (record s { heap = update s.heap p none }))
      after_delete (returns res) e r = (r, delete-Keeps p (returns res) e l (λ b. refl) tt tt)
      after_delete (repeats c) e r = (tt, delete-Keeps p (repeats c) e l (λ b. refl) tt tt)
