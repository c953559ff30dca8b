-- ===== src/ThreadSafeList/Writes.antt =====
-- The writes that change which node points to which: of `push_front`, of `remove_if`, and the
-- deletion of the node that was taken out.
use mathlib.Core.Option.{some-injective}
use native.Mathlib.Decide.{ℕ_discrete}
use concurrency_in_action.Common.{
  ℕ, suc, ◌<◌, ◌≡◌, ◌≢◌, ◌⊎◌, refl, sym, ap, ◌∙◌, inl, inr, Option, none, some, arith, update,
  update_self, update_ne,
}
use concurrency_in_action.Nodes.{Node, Pointer}
use concurrency_in_action.ThreadSafeList.Shape.{
  IsThere, HasValue, PointsTo, NotPointed, Shape, points_cases, IsThere-cases, value_kept,
}

some-ne-none {ℓ} : {A : Type ℓ} (a : A) → some a ≢ none
some-ne-none a e = cc

module _ {ℓ} {T : Type ℓ} (heap : ℕ → Option (Node T)) (c : ℕ) where
  IsThere-kept : (n : Node T) (a : ℕ) → IsThere heap a → IsThere (update heap c (some n)) a
  IsThere-kept n a (m, e) = elim (ℕ_discrete c a) [
    | yes same ↦ (n, ap (update heap c (some n)) (sym same) ∙ update_self heap c (some n))
    | no other ↦ (m, update_ne heap c a (some n) other ∙ e)
  ]

  -- A change of a node's pointer keeps the values.
  renexted_kept :
      (n : Node T) (q : Pointer)
      → heap c ≡ some n
      → (b : ℕ) → HasValue heap b
      → HasValue (update heap c (some (record n { next = q }))) b
  renexted_kept n q at b (k, x, e, d) = elim (ℕ_discrete c b) [
    | yes same ↦
        let same_node = some-injective n k (sym at ∙ ap heap same ∙ e) in
        value_kept heap c _ b
          (inl (record n { next = q }, x, refl, ap (λ r. r.data_) same_node ∙ d)) (k, x, e, d)
    | no other ↦ value_kept heap c _ b (inr other) (k, x, e, d)
  ]

module _ {ℓ} {T : Type ℓ} (heap : ℕ → Option (Node T)) (fresh : ℕ) (s : Shape heap fresh) where
  not_fresh : (a : ℕ) → PointsTo (heap a) fresh → ⊥
  not_fresh a h =
      let (n, x, e, d) = s.valued a fresh h in absurd (omega (arith, s.below fresh (n, e)))

  pointed_below : (a b : ℕ) → PointsTo (heap a) b → b < fresh
  pointed_below a b h = let (n, x, e, d) = s.valued a b h in s.below b (n, e)

  -- `push_front`: the head `hd` points to the new node, and that to the head's old successor.
  module _ (hd : Node T) (v : T) (at : heap 0 ≡ some hd) where
    abbrev made : ℕ → Option (Node T)
    made = update heap fresh (some (record { data_ = some v; next = hd.next }))

    abbrev pub linked : ℕ → Option (Node T)
    linked = update made 0 (some (record hd { next = some fresh }))

    fresh_pos : 0 < fresh
    fresh_pos = s.below 0 s.head_there

    pub linked_points :
        (a b : ℕ)
        → PointsTo (linked a) b
        → ((a ≡ 0) × (b ≡ fresh))
          ⊎ (((a ≡ fresh) × PointsTo (heap 0) b) ⊎ ((0 ≢ a) × PointsTo (heap a) b))
    linked_points a b h = elim (points_cases made 0 _ a b h) [
      | inl (same, (n, e, p)) ↦ inl (sym same, cc)
      | inr (other, h') ↦ elim (points_cases heap fresh _ a b h') [
        | inl (same, (n, e, p)) ↦ inr (inl (sym same, (hd, at, cc)))
        | inr (other', p) ↦ inr (inr (other, p))
      ]
    ]

    pub linked_elsewhere : (a : ℕ) → 0 ≢ a → fresh ≢ a → linked a ≡ heap a
    linked_elsewhere a ne ne' = update_ne made 0 a _ ne ∙ update_ne heap fresh a _ ne'

    kept : (b : ℕ) → 0 < b → b < fresh → HasValue heap b → HasValue linked b
    kept b lt lt' h =
        value_kept made 0 _ b (inr (omega arith)) (value_kept heap fresh _ b (inr (omega arith)) h)

    fresh-HasValue : HasValue linked fresh
    fresh-HasValue = (
      record { data_ = some v; next = hd.next },
      v,
      update_ne made 0 fresh _ (omega (arith, fresh_pos)) ∙ update_self heap fresh _,
      refl,
    )

    linked_ordered : (a b : ℕ) → PointsTo (linked a) b → (0 < b) × (0 < a → b < a)
    linked_ordered a b h = elim (linked_points a b h) [
      | inl (e, f) ↦ (omega (arith, fresh_pos), λ l. absurd (omega arith))
      | inr (inl (e, p)) ↦ ((s.ordered 0 b p).0, λ l. omega (arith, pointed_below 0 b p))
      | inr (inr (ne, p)) ↦ s.ordered a b p
    ]

    linked_valued : (a b : ℕ) → PointsTo (linked a) b → HasValue linked b
    linked_valued a b h = elim (linked_points a b h) [
      | inl (e, f) ↦ rw f fresh-HasValue
      | inr (inl (e, p)) ↦ kept b (s.ordered 0 b p).0 (pointed_below 0 b p) (s.valued 0 b p)
      | inr (inr (ne, p)) ↦ kept b (s.ordered a b p).0 (pointed_below a b p) (s.valued a b p)
    ]

    -- Where a pointer of the new heap comes from.
    linked_one : (a c b : ℕ) → PointsTo (linked a) b → PointsTo (linked c) b → a ≡ c
    linked_one a c b h k = elim (linked_points a b h) [
      | inl (e, f) ↦ elim (linked_points c b k) [
        | inl (e', f') ↦ e ∙ sym e'
        | inr (inl (e', p)) ↦ absurd (not_fresh 0 (rw f at p))
        | inr (inr (ne, p)) ↦ absurd (not_fresh c (rw f at p))
      ]
      | inr (inl (e, p)) ↦ elim (linked_points c b k) [
        | inl (e', f') ↦ absurd (not_fresh 0 (rw f' at p))
        | inr (inl (e', p')) ↦ e ∙ sym e'
        | inr (inr (ne, p')) ↦ absurd (ne (s.one_predecessor 0 c b p p'))
      ]
      | inr (inr (ne, p)) ↦ elim (linked_points c b k) [
        | inl (e', f') ↦ absurd (not_fresh a (rw f' at p))
        | inr (inl (e', p')) ↦ absurd (ne (s.one_predecessor 0 a b p' p))
        | inr (inr (ne', p')) ↦ s.one_predecessor a c b p p'
      ]
    ]

    pub linked-Shape : Shape linked (suc fresh)
    linked-Shape = record {
      head_there = (_, update_self made 0 _);
      below = λ a h. elim (IsThere-cases made 0 _ a h) [
        | inl same ↦ omega arith
        | inr h' ↦ elim (IsThere-cases heap fresh _ a h') [
          | inl same ↦ omega arith
          | inr h'' ↦ omega (arith, s.below a h'')
        ]
      ];
      ordered = linked_ordered;
      valued = linked_valued;
      one_predecessor = linked_one;
    }

  -- `remove_if`: `cur` points past `nx`, which points nowhere.
  module _ (cur nx : ℕ) (n m : Node T) (at : heap cur ≡ some n) (at' : heap nx ≡ some m)
      (to_next : n.next ≡ some nx) where
    abbrev cut : ℕ → Option (Node T)
    cut = update heap nx (some (record m { next = none }))

    abbrev pub spliced : ℕ → Option (Node T)
    spliced = update cut cur (some (record n { next = m.next }))

    pub spliced_points :
        (a b : ℕ)
        → PointsTo (spliced a) b
        → ((a ≡ cur) × PointsTo (heap nx) b) ⊎ ((cur ≢ a) × (nx ≢ a) × PointsTo (heap a) b)
    spliced_points a b h = elim (points_cases cut cur _ a b h) [
      | inl (same, (k, e, p)) ↦ inl (sym same, (m, at', cc))
      | inr (other, h') ↦ elim (points_cases heap nx _ a b h') [
        | inl (same, (k, e, p)) ↦ absurd (cc)
        | inr (other', p) ↦ inr (other, other', p)
      ]
    ]

    pub spliced_elsewhere : (a : ℕ) → cur ≢ a → nx ≢ a → spliced a ≡ heap a
    spliced_elsewhere a ne ne' = update_ne cut cur a _ ne ∙ update_ne heap nx a _ ne'

    cur_points : PointsTo (heap cur) nx
    cur_points = (n, at, to_next)

    pub apart : nx ≢ cur
    apart e =
        let (pos, lt) = s.ordered cur nx cur_points in absurd (omega (arith, lt (omega arith)))

    spliced_kept : (b : ℕ) → HasValue heap b → HasValue spliced b
    spliced_kept b h =
        renexted_kept cut cur n m.next (update_ne heap nx cur _ apart ∙ at) b
          (renexted_kept heap nx m none at' b h)

    -- No node points to `nx` any more.
    pub spliced-NotPointed : NotPointed spliced nx
    spliced-NotPointed a h = elim (spliced_points a nx h) [
      | inl (e, p) ↦ let (pos, lt) = s.ordered nx nx p in absurd (omega (arith, lt pos))
      | inr (ne, ne', p) ↦ absurd (ne (s.one_predecessor cur a nx cur_points p))
    ]

    spliced_ordered : (a b : ℕ) → PointsTo (spliced a) b → (0 < b) × (0 < a → b < a)
    spliced_ordered a b h = elim (spliced_points a b h) [
      | inl (e, p) ↦
          let (pos, lt) = s.ordered cur nx cur_points in
          let (pos', lt') = s.ordered nx b p in
          (pos', λ l. omega (arith, lt (omega arith), lt' pos))
      | inr (ne, ne', p) ↦ s.ordered a b p
    ]

    spliced_valued : (a b : ℕ) → PointsTo (spliced a) b → HasValue spliced b
    spliced_valued a b h = elim (spliced_points a b h) [
      | inl (e, p) ↦ spliced_kept b (s.valued nx b p)
      | inr (ne, ne', p) ↦ spliced_kept b (s.valued a b p)
    ]

    spliced_one : (a c b : ℕ) → PointsTo (spliced a) b → PointsTo (spliced c) b → a ≡ c
    spliced_one a c b h k = elim (spliced_points a b h) [
      | inl (e, p) ↦ elim (spliced_points c b k) [
        | inl (e', p') ↦ e ∙ sym e'
        | inr (ne, ne', p') ↦ absurd (ne' (s.one_predecessor nx c b p p'))
      ]
      | inr (ne, ne', p) ↦ elim (spliced_points c b k) [
        | inl (e', p') ↦ absurd (ne' (s.one_predecessor nx a b p' p))
        | inr (ne'', ne3, p') ↦ s.one_predecessor a c b p p'
      ]
    ]

    pub spliced-IsThere : (a : ℕ) → IsThere heap a → IsThere spliced a
    spliced-IsThere a h = IsThere-kept cut cur _ a (IsThere-kept heap nx _ a h)

    pub spliced-Shape : Shape spliced fresh
    spliced-Shape = record {
      head_there = spliced-IsThere 0 s.head_there;
      below = λ a h. elim (IsThere-cases cut cur _ a h) [
        | inl same ↦ s.below a (n, ap heap (sym same) ∙ at)
        | inr h' ↦ elim (IsThere-cases heap nx _ a h') [
          | inl same ↦ s.below a (m, ap heap (sym same) ∙ at')
          | inr h'' ↦ s.below a h''
        ]
      ];
      ordered = spliced_ordered;
      valued = spliced_valued;
      one_predecessor = spliced_one;
    }

  -- The deletion of a node that none points to, and that is not the head.
  module _ (nx : ℕ) (pos : 0 < nx) (alone : NotPointed heap nx) where
    abbrev pub deleted : ℕ → Option (Node T)
    deleted = update heap nx none

    pub deleted_points : (a b : ℕ) → PointsTo (deleted a) b → (nx ≢ a) × PointsTo (heap a) b
    deleted_points a b h = elim (points_cases heap nx none a b h) [
      | inl (same, (k, e, p)) ↦ absurd (cc)
      | inr (other, p) ↦ (other, p)
    ]

    pub deleted-Shape : Shape deleted fresh
    deleted-Shape = record {
      head_there = (s.head_there.0, update_ne heap nx 0 none (omega arith) ∙ s.head_there.1);
      below = λ a h. elim (IsThere-cases heap nx none a h) [
        | inl same ↦
            absurd (some-ne-none (h.0) (sym h.1 ∙ ap deleted (sym same) ∙ update_self heap nx none))
        | inr h' ↦ s.below a h'
      ];
      ordered = λ a b h. s.ordered a b (deleted_points a b h).1;
      valued = λ a b h.
          let p = (deleted_points a b h).1 in
          value_kept heap nx none b (inr (λ e. alone a (rw e p))) (s.valued a b p);
      one_predecessor =
          λ a c b h k. s.one_predecessor a c b (deleted_points a b h).1 (deleted_points c b k).1;
    }
