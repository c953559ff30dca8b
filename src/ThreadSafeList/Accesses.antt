-- ===== src/ThreadSafeList/Accesses.antt =====
-- What a thread does with the nodes that it has locked finds them in place.
use mathlib.Core.Path.{subst}
use mathlib.Core.Option.{some-injective}
use concurrency_in_action.Common.{
  ℕ, suc, ◌≡◌, ◌≢◌, ◌⊎◌, refl, sym, ap, ◌∙◌, Bool, Bool-cases, inl, inr, Option, none, some, arith,
  update, update_self, update_ne,
}
use concurrency_in_action.Nodes.{Node, Pointer}
use concurrency_in_action.ThreadSafeList.{
  Job, for_each, find_first_if, remove_if, Local, resting, pushing, linking, starting, arrived,
  waiting, holding, unlinked, visiting, State, goes, unlock, link, loop_test, unlink, remove_or_go,
  visit_value, visit, delete,
}
use concurrency_in_action.ThreadSafeList.Shape.{
  IsThere, Shape, revalued, revalued_points, revalued-Shape,
}
use concurrency_in_action.ThreadSafeList.Writes.{
  linked, linked_points, linked_elsewhere, spliced_elsewhere, linked-Shape, spliced_points,
  spliced-IsThere, spliced-NotPointed, spliced-Shape, apart, deleted_points, deleted-Shape,
}
use concurrency_in_action.ThreadSafeList.Invariant.{
  Placed, Holds, Inv, advance, given_keeps, given_only,
}
use concurrency_in_action.ThreadSafeList.Threads.{Keeps, held, stays, gives_back, not_mine}

-- A node that a thread has locked is there.
held-IsThere {ℓ} :
    {T : Type ℓ} (heap : ℕ → Option (Node T)) (locks : ℕ → Option ℕ) (fresh u a : ℕ) (l : Local T)
    → Shape heap fresh
    → Holds l a
    → Placed heap locks u l
    → IsThere heap a
held-IsThere heap locks fresh u a (resting r) s h p = absurd h
held-IsThere heap locks fresh u a (pushing v) s h p = absurd h
held-IsThere heap locks fresh u a (starting j) s h p = absurd h
held-IsThere heap locks fresh u a (linking v) s h p = subst (IsThere heap) (sym h) s.head_there
held-IsThere heap locks fresh u a (arrived j cur) s h p = subst (IsThere heap) (sym h) p.1
held-IsThere heap locks fresh u a (waiting j cur nx) s h (l, (n, e, q)) =
    subst (IsThere heap) (sym h) (n, e)
held-IsThere heap locks fresh u a (holding j cur nx) s (inl h) (l, l', (n, e, q)) =
    subst (IsThere heap) (sym h) (n, e)
held-IsThere heap locks fresh u a (holding j cur nx) s (inr h) (l, l', q) =
    let (n, x, e, d) = s.valued cur nx q in subst (IsThere heap) (sym h) (n, e)
held-IsThere heap locks fresh u a (visiting j nx) s h (l, (n, x, e, d)) =
    subst (IsThere heap) (sym h) (n, e)
held-IsThere heap locks fresh u a (unlinked j cur nx) s (inl h) p = subst (IsThere heap) (sym h) p.2
held-IsThere heap locks fresh u a (unlinked j cur nx) s (inr h) p = subst (IsThere heap) (sym h) p.3

none-ne-some {ℓ} : {A : Type ℓ} (a : A) → none ≢ some a
none-ne-some a e = cc

module _ {ℓ} {T : Type ℓ} (s : State T) (t : ℕ) (i : Inv s) where
  -- What the thread has locked and knows.
  pub known : (from : Local T) → s.local t ≡ from → Placed s.heap s.locks t from
  known from at = subst (Placed s.heap s.locks t) at (i.placed t)

  pub loop_test-Keeps :
      (cur : ℕ) (j : Job T) (n : Option (Node T)) (next : Pointer)
      → s.local t ≡ arrived j cur
      → s.heap cur ≡ n
      → ((m : Node T) → n ≡ some m → m.next ≡ next)
      → Keeps (loop_test n j t cur s)
  loop_test-Keeps cur j none next at e f =
      let (locked, there) = known (arrived j cur) at in let (m, e') = there in absurd (cc)
  loop_test-Keeps cur j (some m) none at e f = rw (f m refl) (
      gives_back s t cur (arrived j cur) (resting none) i at (known (arrived j cur) at).0 tt
        (λ a ne h. absurd (ne (sym h))))
  loop_test-Keeps cur j (some m) (some nx) at e f = rw (f m refl) (
      stays s t (arrived j cur) (waiting j cur nx) i at
        ((known (arrived j cur) at).0, (m, e, f m refl)) (λ a h. h))

  visit_value-Keeps :
      (nx : ℕ) (j : Job T) (m : Node T) (value : Option T)
      → s.local t ≡ visiting j nx
      → s.heap nx ≡ some m
      → m.data_ ≡ value
      → Keeps (visit_value value j t nx m s)
  visit_value-Keeps nx j m none at e d =
      let (locked, filled) = known (visiting j nx) at in
      let (n, x, e', d') = filled in
      let same = some-injective m n (sym e ∙ e') in
      absurd (none-ne-some x (sym d ∙ ap (λ r. r.data_) same ∙ d'))
  visit_value-Keeps nx (for_each f) m (some x) at e d =
      advance s
        (goes t (arrived (for_each f) nx)
          (record s { heap = revalued s.heap s.fresh nx m (f x) e }))
        t (arrived (for_each f) nx) i refl (revalued-Shape s.heap s.fresh nx m (f x) e i.shape)
        (λ u ne. record {
          keeps_locks = λ a h. h;
          keeps_nodes = λ a h.
              update_ne s.heap nx a _
                (not_mine s t u nx a ne (known (visiting (for_each f) nx) at).0 h);
          keeps_alone =
              λ b h alone a p. alone a (revalued_points s.heap s.fresh nx m (f x) e a b p);
        })
        ((known (visiting (for_each f) nx) at).0, (_, update_self s.heap nx _))
        (λ a h. held s t (visiting (for_each f) nx) i at a h) (λ a u ne h. h)
  visit_value-Keeps nx (find_first_if p) m (some x) at e d = elim (Bool-cases (p x)) [
    | inl yes_x ↦ rw yes_x (
        gives_back s t nx (visiting (find_first_if p) nx) (resting (some x)) i at
          (known (visiting (find_first_if p) nx) at).0 tt (λ a ne h. absurd (ne (sym h))))
    | inr no_x ↦ rw no_x (
        stays s t (visiting (find_first_if p) nx) (arrived (find_first_if p) nx) i at
          ((known (visiting (find_first_if p) nx) at).0, (m, e)) (λ a h. h))
  ]
  visit_value-Keeps nx (remove_if p) m (some x) at e d =
      stays s t (visiting (remove_if p) nx) (arrived (remove_if p) nx) i at
        ((known (visiting (remove_if p) nx) at).0, (m, e)) (λ a h. h)

  pub visit-Keeps :
      (nx : ℕ) (j : Job T) (n : Option (Node T))
      → s.local t ≡ visiting j nx
      → s.heap nx ≡ n
      → Keeps (visit n j t nx s)
  visit-Keeps nx j none at e =
      let (locked, filled) = known (visiting j nx) at in let (m, x, e', d) = filled in absurd (cc)
  visit-Keeps nx j (some m) at e = visit_value-Keeps nx j m m.data_ at e refl

  -- `push_front`.
  pub link-Keeps :
      (v : T) (n : Option (Node T)) → s.local t ≡ linking v → s.heap 0 ≡ n → Keeps (link n t v s)
  link-Keeps v none at e = let (m, e') = i.shape.head_there in absurd (cc)
  link-Keeps v (some hd) at e =
      let mine = known (linking v) at in
      advance s
        (goes t (resting none) (
          unlock 0 (record s { heap = linked s.heap s.fresh i.shape hd v e; fresh = suc s.fresh })))
        t (resting none) i refl (linked-Shape s.heap s.fresh i.shape hd v e)
        (λ u ne. record {
          keeps_locks = λ a h. given_keeps s.locks 0 t mine.0 a u ne h;
          keeps_nodes = λ a h.
              let there =
                held-IsThere s.heap s.locks s.fresh u a (s.local u) i.shape (i.only a u h)
                  (i.placed u) in
              linked_elsewhere s.heap s.fresh i.shape hd v e a (not_mine s t u 0 a ne mine.0 h)
                (omega (arith, i.shape.below a there));
          keeps_alone = λ b there alone a p.
              elim (linked_points s.heap s.fresh i.shape hd v e a b p) [
                | inl (z, f) ↦ absurd (omega (arith, i.shape.below b there))
                | inr (inl (f, q)) ↦ alone 0 q
                | inr (inr (f, q)) ↦ alone a q
              ];
        })
        tt
        (λ a h.
          let (ne, h') = given_only s.locks 0 t a t h in
          absurd (ne (sym (held s t (linking v) i at a h'))))
        (λ a u ne h. (given_only s.locks 0 t a u h).1)

  pub other_one : (cur nx a : ℕ) → cur ≢ a → (a ≡ cur) ⊎ (a ≡ nx) → a ≡ nx
  other_one cur nx a ne (inl h) = absurd (ne (sym h))
  other_one cur nx a ne (inr h) = h

  unlink-Inv :
      (cur nx : ℕ) (p : T → Bool) (n m : Node T)
      → s.local t ≡ holding (remove_if p) cur nx
      → s.heap cur ≡ some n
      → s.heap nx ≡ some m
      → n.next ≡ some nx
      → Inv (unlink (remove_if p) t cur nx n m s)
  unlink-Inv cur nx p n m at e e' to_next =
      let (l, l', q) = known (holding (remove_if p) cur nx) at in
      advance s (unlink (remove_if p) t cur nx n m s) t (unlinked (remove_if p) cur nx) i refl
        (spliced-Shape s.heap s.fresh i.shape cur nx n m e e' to_next)
        (λ u ne. record {
          keeps_locks = λ a h. h;
          keeps_nodes = λ a h.
              spliced_elsewhere s.heap s.fresh i.shape cur nx n m e e' to_next a
                (not_mine s t u cur a ne l h) (not_mine s t u nx a ne l' h);
          keeps_alone = λ b there alone a k.
              elim (spliced_points s.heap s.fresh i.shape cur nx n m e e' to_next a b k) [
                | inl (f, r) ↦ alone nx r
                | inr (f, g, r) ↦ alone a r
              ];
        })
        (
          l,
          l',
          spliced-IsThere s.heap s.fresh i.shape cur nx n m e e' to_next cur (n, e),
          spliced-IsThere s.heap s.fresh i.shape cur nx n m e e' to_next nx (m, e'),
          spliced-NotPointed s.heap s.fresh i.shape cur nx n m e e' to_next,
          (λ z. apart s.heap s.fresh i.shape cur nx n m e e' to_next (sym z)),
          (i.shape.ordered cur nx q).0,
        )
        (λ a h. held s t (holding (remove_if p) cur nx) i at a h) (λ a u ne h. h)

  pub remove_or_go-Keeps :
      (cur nx : ℕ) (p : T → Bool) (m : Node T) (value : Option T) (n : Option (Node T))
      → s.local t ≡ holding (remove_if p) cur nx
      → s.heap nx ≡ some m
      → m.data_ ≡ value
      → s.heap cur ≡ n
      → Keeps (remove_or_go value n p t cur nx m s)
  remove_or_go-Keeps cur nx p m none n at e d e' =
      let (l, l', q) = known (holding (remove_if p) cur nx) at in
      let (k, x, f, g) = i.shape.valued cur nx q in
      let same = some-injective m k (sym e ∙ f) in
      absurd (none-ne-some x (sym d ∙ ap (λ r. r.data_) same ∙ g))
  remove_or_go-Keeps cur nx p m (some x) none at e d e' =
      let (l, l', q) = known (holding (remove_if p) cur nx) at in let (k, f, g) = q in absurd (cc)
  remove_or_go-Keeps cur nx p m (some x) (some n) at e d e' =
      let (l, l', q) = known (holding (remove_if p) cur nx) at in
      let (k, f, g) = q in
      let to_next = ap (λ r. r.next) (some-injective n k (sym e' ∙ f)) ∙ g in
      elim (Bool-cases (p x)) [
        | inl yes_x ↦ rw yes_x (unlink-Inv cur nx p n m at e' e to_next)
        | inr no_x ↦ rw no_x (
            gives_back s t cur (holding (remove_if p) cur nx) (arrived (remove_if p) nx) i at l
              (
                update_ne s.locks cur nx none
                      (λ z. apart s.heap s.fresh i.shape cur nx n m e' e to_next (sym z))
                    ∙ l',
                (m, e),
              )
              (λ a ne h. other_one cur nx a ne h))
      ]

  pub delete-Keeps :
      (cur nx : ℕ) (j : Job T) (n : Option (Node T))
      → s.local t ≡ unlinked j cur nx
      → s.heap nx ≡ n
      → Keeps (delete n j t cur nx s)
  delete-Keeps cur nx j none at e =
      let (l, l', there, there', alone, ne, pos) = known (unlinked j cur nx) at in
      let (m, f) = there' in absurd (cc)
  delete-Keeps cur nx j (some m) at e =
      let (l, l', there, there', alone, apart_, pos) = known (unlinked j cur nx) at in
      advance s (goes t (arrived j cur) (unlock nx (record s { heap = update s.heap nx none }))) t
        (arrived j cur) i refl (deleted-Shape s.heap s.fresh i.shape nx pos alone)
        (λ u ne. record {
          keeps_locks = λ a h. given_keeps s.locks nx t l' a u ne h;
          keeps_nodes = λ a h. update_ne s.heap nx a none (not_mine s t u nx a ne l' h);
          keeps_alone = λ b h alone' a p.
              alone' a (deleted_points s.heap s.fresh i.shape nx pos alone a b p).1;
        })
        (
          update_ne s.locks nx cur none (λ z. apart_ (sym z)) ∙ l,
          (there.0, update_ne s.heap nx cur none (λ z. apart_ (sym z)) ∙ there.1),
        )
        (λ a h.
          let (ne, h') = given_only s.locks nx t a t h in
          elim (held s t (unlinked j cur nx) i at a h') [
            | inl same ↦ same
            | inr same ↦ absurd (ne (sym same))
          ])
        (λ a u ne h. (given_only s.locks nx t a u h).1)
