-- ===== src/ThreadSafeList/Shape.antt =====
-- The nodes form one list from the head, and the writes of the operations keep that.
use native.Mathlib.Decide.{ℕ_discrete}
use concurrency_in_action.Common.{
  ℕ, ◌<◌, ◌≡◌, ◌≢◌, ◌⊎◌, refl, sym, ap, ◌∙◌, inl, inr, Option, some, update, update_self, update_ne,
}
use concurrency_in_action.Nodes.{Node}

module _ {ℓ} {T : Type ℓ} where
  abbrev pub IsThere : (ℕ → Option (Node T)) → ℕ → Type ℓ
  IsThere heap a = (n : Node T) × (heap a ≡ some n)

  abbrev pub HasValue : (ℕ → Option (Node T)) → ℕ → Type ℓ
  HasValue heap a = (n : Node T) × (x : T) × (heap a ≡ some n) × (n.data_ ≡ some x)

  abbrev pub PointsTo : Option (Node T) → ℕ → Type ℓ
  PointsTo o b = (n : Node T) × (o ≡ some n) × (n.next ≡ some b)

  abbrev pub NotPointed : (ℕ → Option (Node T)) → ℕ → Type ℓ
  NotPointed heap b = (a : ℕ) → PointsTo (heap a) b → ⊥

  -- The head is there; each node that another points to is there, has a value, and has no other
  -- predecessor; behind the head the addresses fall.
  pub record Shape (heap : ℕ → Option (Node T)) (fresh : ℕ) : Type ℓ where
    pub head_there : IsThere heap 0
    pub below : (a : ℕ) → IsThere heap a → a < fresh
    pub ordered : (a b : ℕ) → PointsTo (heap a) b → (0 < b) × (0 < a → b < a)
    pub valued : (a b : ℕ) → PointsTo (heap a) b → HasValue heap b
    pub one_predecessor : (a c b : ℕ) → PointsTo (heap a) b → PointsTo (heap c) b → a ≡ c

  -- What a written heap holds at an address.
  module _ (heap : ℕ → Option (Node T)) (c : ℕ) (o : Option (Node T)) where
    pub points_cases :
        (a b : ℕ)
        → PointsTo (update heap c o a) b
        → ((c ≡ a) × PointsTo o b) ⊎ ((c ≢ a) × PointsTo (heap a) b)
    points_cases a b (n, e, p) = elim (ℕ_discrete c a) [
      | yes same ↦ inl (same, (n, sym (update_self heap c o) ∙ ap (update heap c o) same ∙ e, p))
      | no other ↦ inr (other, (n, sym (update_ne heap c a o other) ∙ e, p))
    ]

    pub IsThere-cases : (a : ℕ) → IsThere (update heap c o) a → (c ≡ a) ⊎ IsThere heap a
    IsThere-cases a (n, e) = elim (ℕ_discrete c a) [
      | yes same ↦ inl same
      | no other ↦ inr (n, sym (update_ne heap c a o other) ∙ e)
    ]

    pub value_kept :
        (a : ℕ)
        → ((n : Node T) × (x : T) × (o ≡ some n) × (n.data_ ≡ some x)) ⊎ (c ≢ a)
        → HasValue heap a
        → HasValue (update heap c o) a
    value_kept a w (n, x, e, d) = elim (ℕ_discrete c a) [
      | yes same ↦ elim w [
        | inl (m, y, f, g) ↦ (m, y, ap (update heap c o) (sym same) ∙ update_self heap c o ∙ f, g)
        | inr other ↦ absurd (other same)
      ]
      | no other ↦ (n, x, update_ne heap c a o other ∙ e, d)
    ]

  -- A change of a node's value.
  module _ (heap : ℕ → Option (Node T)) (fresh c : ℕ) (m : Node T) (y : T)
      (at : heap c ≡ some m) where
    abbrev pub revalued : ℕ → Option (Node T)
    revalued = update heap c (some (record m { data_ = some y }))

    pub revalued_points : (a b : ℕ) → PointsTo (revalued a) b → PointsTo (heap a) b
    revalued_points a b h = elim (points_cases heap c (some (record m { data_ = some y })) a b h) [
      | inl (same, (n, e, p)) ↦ (m, ap heap (sym same) ∙ at, cc)
      | inr (other, p) ↦ p
    ]

    pub revalued-Shape : Shape heap fresh → Shape revalued fresh
    revalued-Shape s = record {
      head_there = elim (ℕ_discrete c 0) [
        | yes same ↦ (_, ap revalued (sym same) ∙ update_self heap c _)
        | no other ↦ (s.head_there.0, update_ne heap c 0 _ other ∙ s.head_there.1)
      ];
      below = λ a h. elim (IsThere-cases heap c _ a h) [
        | inl same ↦ s.below a (m, ap heap (sym same) ∙ at)
        | inr h' ↦ s.below a h'
      ];
      ordered = λ a b h. s.ordered a b (revalued_points a b h);
      valued = λ a b h.
          value_kept heap c _ b (inl (record m { data_ = some y }, y, refl, refl))
            (s.valued a b (revalued_points a b h));
      one_predecessor =
          λ a d b h k. s.one_predecessor a d b (revalued_points a b h) (revalued_points d b k);
    }
