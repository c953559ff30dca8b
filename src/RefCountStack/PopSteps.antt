-- ===== src/RefCountStack/PopSteps.antt =====
-- The steps of `pop` up to the compare_exchange on the head, `increase_head_count` with them.
use mathlib.Core.Path.{subst}
use mathlib.Core.Option.{some-injective}
use concurrency_in_action.Common.{
  ℕ, ◌+◌, ◌<◌, ◌≡◌, ◌≢◌, refl, sym, ap, ◌∙◌, Bool, true, false, ◌==◌, ==_iff, Option, none, some,
  List, [], ◌∷◌, update, map, update_ne, update_self, arith,
}
use concurrency_in_action.Nodes.{Pointer}
use concurrency_in_action.StackModel.{Model, silent, popped, was_empty, after, take_top}
use concurrency_in_action.RefCountStack.{
  CountedPtr, Node, Place, returned, entering, increasing, holding, comparing, taking, dropping,
  State, same, int_max, goes, exchange_count, increase_head_count, test_ptr, take_head,
}
use concurrency_in_action.RefCountStack.Labels.{
  linked, taken, references, Balanced, Balanced-node, IsOut, Chain, Chain-away,
}
use concurrency_in_action.RefCountStack.Roles.{Links, IfNull, Inv, rebuild}
use concurrency_in_action.RefCountStack.Frames.{others_relabel, is_one_self}
use concurrency_in_action.RefCountStack.Events.{
  null_event, exchange_event, increase_event, holding_event, take_event, Keeps, same-eq,
}
use concurrency_in_action.RefCountStack.References.{
  is_one_ne, CountedPtr-eq, use_node_elim, Balanced-Links, recount, one-le-references, quiet,
}

module _ {ℓ} {T : Type ℓ} (n t : ℕ) (mine : t < n) (m : Model T) (s : State T) (v : Inv n m s) where
  pub entering-Keeps : s.places t ≡ entering → Keeps n silent m (goes t (increasing s.head) s)
  entering-Keeps e = (
    tt,
    quiet n t mine m s v m s.head entering (increasing s.head) e (λ a. refl) (λ u ne. refl) refl
        v.stack_chain tt tt,
  )

  -- The count of the head is increased.
  counted-Keeps :
      (cells : List (ℕ × Option T)) (p : Pointer) (x : ℕ)
      → s.places t ≡ increasing (record { external_count = x; ptr = p })
      → x ≢ int_max
      → cells ≡ v.cells
      → Chain s.heap v.labels (record { external_count = x; ptr = p }) cells
      → (let c : CountedPtr = record { external_count = x + 1; ptr = p } in
          Keeps n (null_event t p) m (goes t (holding c) (record s { head = c })))
  counted-Keeps [] none x e below same chain = (
    sym v.contents_eq ∙ ap (λ cs. map (λ (c : ℕ × Option T). c.1) cs) (sym same),
    quiet n t mine m s v (after (was_empty t) m) (record { external_count = x + 1; ptr = none })
        (increasing (record { external_count = x; ptr = none }))
        (holding (record { external_count = x + 1; ptr = none })) e (λ a. refl)
        (λ u ne. update_ne m.in_hand t u none ne) refl
        (subst (λ cs. Chain s.heap v.labels (record { external_count = x + 1; ptr = none }) cs) same
          (refl, tt))
        tt (sym (update_self m.in_hand t none)),
  )
  counted-Keeps [] (some p) x e below same (bad, u) = absurd (cc)
  counted-Keeps ((a, d) ∷ xs) none x e below same (bad, l, out, rest) = absurd (cc)
  counted-Keeps ((a, d) ∷ xs) (some p) x e below same (at, l, out, (k, here, dat, rest)) =
      let same_node = some-injective p a at in
      let lp = ap v.labels same_node ∙ l in
      let here_p = ap s.heap same_node ∙ here in
      let out_p = subst (λ b. IsOut b xs) (sym same_node) out in
      let labels' = update v.labels p (linked (x + 1)) in
      let c : CountedPtr = record { external_count = x + 1; ptr = some p } in
      let (k', at', (drops, split, short, le, u)) =
        subst (λ L. Balanced L (s.heap p) (references n s.places p)) lp (v.balanced p) in
      let from : Place T = increasing (record { external_count = x; ptr = some p }) in
      let count = recount n t mine m s v p from (holding c) e in
      let one = is_one_self p in
      (
        tt,
        rebuild n t mine m m s v p labels' s.heap c from (holding c) ((p, d) ∷ xs) e
            (λ b ne. (update_ne v.labels p b (linked (x + 1)) ne, refl))
            (λ b ne. is_one_ne b p (λ h. ne (sym h))) (λ u ne. refl)
            (λ u ne q at.
              others_relabel t s.heap v.labels m.in_hand m.in_hand (λ u ne. refl) s.heap p
                (linked x) (linked (x + 1)) (λ b ne. refl) lp (λ u ne h. h) u ne q
                (λ next one k. k))
            (rw (update_self v.labels p (linked (x + 1))) (
              k',
              at',
              (drops, omega (arith, split, count, one), short, omega (arith, le, below), u),
            ))
            (
              refl,
              update_self v.labels p (linked (x + 1)),
              out_p,
              (
                k,
                here_p,
                dat,
                Chain-away s.heap s.heap v.labels labels' p k.next xs
                    (λ b ne. (update_ne v.labels p b (linked (x + 1)) ne, refl)) out_p rest,
              ),
            )
            (ap (λ cs. map (λ (c : ℕ × Option T). c.1) cs)
                (ap (λ b. ((b, d) ∷ xs)) same_node ∙ same)
              ∙ v.contents_eq)
            tt tt,
      )

  exchange-Keeps :
      (b : Bool) (c : CountedPtr)
      → s.places t ≡ increasing c
      → c.external_count ≢ int_max
      → (b ≡ true → s.head ≡ c)
      → Keeps n (exchange_event b t c) m (exchange_count b t c s)
  exchange-Keeps false c e below found = (
    tt,
    quiet n t mine m s v m s.head (increasing c) (increasing s.head) e (λ a. refl) (λ u ne. refl)
        refl v.stack_chain tt tt,
  )
  exchange-Keeps true c e below found =
      counted-Keeps v.cells c.ptr c.external_count e below refl
        (subst (λ h. Chain s.heap v.labels h v.cells) (found refl) v.stack_chain)

  increase-Keeps :
      (b : Bool) (c : CountedPtr)
      → s.places t ≡ increasing c
      → (b ≡ false → c.external_count ≢ int_max)
      → Keeps n (increase_event b t c s) m (increase_head_count b t c s)
  increase-Keeps true c e below = tt
  increase-Keeps false c e below =
      exchange-Keeps _ c e (below refl)
        (λ h. let (e, f) = same-eq s.head c h in CountedPtr-eq s.head c e f)

  pub increasing-Keeps :
      (c : CountedPtr)
      → s.places t ≡ increasing c
      → Keeps n
          (increase_event (c.external_count == int_max) t c s)
          m
          (increase_head_count (c.external_count == int_max) t c s)
  increasing-Keeps c e = increase-Keeps _ c e (λ differ equal.
      let test = (==_iff c.external_count int_max).1 equal in false_ne_true (sym differ ∙ test))
    where
      false_ne_true : ◌≡◌ {A = Bool} false true → ⊥
      false_ne_true h = cc

  test_ptr-Keeps :
      (p : Pointer) (x : ℕ)
      → s.places t ≡ holding (record { external_count = x; ptr = p })
      → IfNull (m.in_hand t) p
      → Keeps n (holding_event t p) m (test_ptr p t x s)
  test_ptr-Keeps none x e r = (
    r,
    quiet n t mine m s v m s.head (holding (record { external_count = x; ptr = none }))
        (returned none) e (λ a. refl) (λ u ne. refl) refl v.stack_chain tt tt,
  )
  test_ptr-Keeps (some p) x e r =
      let from : Place T = holding (record { external_count = x; ptr = some p }) in
      let le = one-le-references n t mine m s v p from e (is_one_self p) in
      let (k, at) = Balanced-node (v.labels p) (s.heap p) _ (v.balanced p) le in
      use_node_elim (λ o z. Keeps n silent m z) _ (s.heap p) k at
        (
          tt,
          quiet n t mine m s v m s.head from (comparing x p k.next) e (λ a. refl) (λ u ne. refl)
              refl v.stack_chain (Balanced-Links (v.labels p) (s.heap p) _ k at le (v.balanced p))
              tt,
        )

  pub holding-Keeps :
      (c : CountedPtr)
      → s.places t ≡ holding c
      → IfNull (m.in_hand t) c.ptr
      → Keeps n (holding_event t c.ptr) m (test_ptr c.ptr t c.external_count s)
  holding-Keeps c e r = test_ptr-Keeps c.ptr c.external_count e r

  -- The compare_exchange takes the node on top.
  taken-Keeps :
      (cells : List (ℕ × Option T)) (x p : ℕ) (next : CountedPtr)
      → s.places t ≡ comparing x p next
      → Links (v.labels p) (s.heap p) next
      → Chain s.heap v.labels (record { external_count = x; ptr = some p }) cells
      → map (λ c. c.1) cells ≡ m.contents
      → Keeps n (popped t) m (goes t (taking x p) (record s { head = next }))
  taken-Keeps [] x p next e links (bad, u) contents = absurd (cc)
  taken-Keeps ((a, d) ∷ xs) x p next e links (at, l, out, (k, here, dat, rest)) contents =
      let same_node = some-injective p a at in
      let lp = ap v.labels same_node ∙ l in
      let here_p = ap s.heap same_node ∙ here in
      let out_p = subst (λ b. IsOut b xs) (sym same_node) out in
      let labels' = update v.labels p (taken t x) in
      let (z, at_z, (link, u)) = subst (λ L. Links L (s.heap p) next) lp links in
      let next_eq = ap (λ (y : Node T). y.next) (some-injective k z (sym here_p ∙ at_z)) ∙ link in
      let (k', at', (drops, split, short, le, u')) =
        subst (λ L. Balanced L (s.heap p) (references n s.places p)) lp (v.balanced p) in
      let count = recount n t mine m s v p (comparing x p next) (taking x p) e in
      let one = is_one_self p in
      let m_eq : after (popped t) m ≡ (record {
        contents = map (λ (q : ℕ × Option T). q.1) xs;
        in_hand = update m.in_hand t d;
      }) =
        ap (λ ds. take_top t ds m) (sym contents) in
      (
        λ empty. cons_ne_nil (contents ∙ empty),
        subst (λ m'. Inv n m' (record s { head = next; places = update s.places t (taking x p) }))
            (sym m_eq)
            (rebuild n t mine m _ s v p labels' s.heap next (comparing x p next) (taking x p) xs e
              (λ b ne. (update_ne v.labels p b (taken t x) ne, refl))
              (λ b ne. sym (is_one_ne b p (λ h. ne (sym h)))) (λ u ne. update_ne m.in_hand t u d ne)
              (λ u ne q at.
                others_relabel t s.heap v.labels m.in_hand (update m.in_hand t d)
                  (λ u ne. update_ne m.in_hand t u d ne) s.heap p (linked x) (taken t x)
                  (λ b ne. refl) lp (λ u ne h. h) u ne q (λ next one k. tt))
              (rw (update_self v.labels p (taken t x))
                (k', at', (drops, omega (arith, split, count, one), short, le, u')))
              (Chain-away s.heap s.heap v.labels labels' p next xs
                (λ b ne. (update_ne v.labels p b (taken t x) ne, refl)) out_p
                (subst (λ c. Chain s.heap v.labels c xs) next_eq rest))
              refl
              (
                update_self v.labels p (taken t x),
                (k, here_p, dat ∙ sym (update_self m.in_hand t d)),
              )
              tt),
      )
    where
      cons_ne_nil : {x : Option T} {xs : List (Option T)} → x ∷ xs ≢ []
      cons_ne_nil e = cc

  take_head-Keeps :
      (b : Bool) (x p : ℕ) (next : CountedPtr)
      → s.places t ≡ comparing x p next
      → Links (v.labels p) (s.heap p) next
      → (b ≡ true → s.head ≡ (record { external_count = x; ptr = some p }))
      → Keeps n (take_event b t) m (take_head b t x p next s)
  take_head-Keeps false x p next e links found = (
    tt,
    quiet n t mine m s v m s.head (comparing x p next) (dropping p s.head) e (λ a. refl)
        (λ u ne. refl) refl v.stack_chain tt tt,
  )
  take_head-Keeps true x p next e links found =
      taken-Keeps v.cells x p next e links
        (subst (λ h. Chain s.heap v.labels h v.cells) (found refl) v.stack_chain) v.contents_eq

  pub comparing-Keeps :
      (x p : ℕ) (next : CountedPtr)
      → s.places t ≡ comparing x p next
      → Links (v.labels p) (s.heap p) next
      → (let c : CountedPtr = record { external_count = x; ptr = some p } in
          Keeps n (take_event (same s.head c) t) m (take_head (same s.head c) t x p next s))
  comparing-Keeps x p next e links = take_head-Keeps _ x p next e links (λ h.
      let c : CountedPtr = record { external_count = x; ptr = some p } in
      let (e, f) = same-eq s.head c h in CountedPtr-eq s.head c e f)
