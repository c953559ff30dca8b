-- ===== src/ThreadSafeList/Invariant.antt =====
-- Which nodes each thread has locked, and what it knows of them.
use mathlib.Core.Path.{subst}
use mathlib.Core.Option.{some-injective}
use native.Mathlib.Decide.{ℕ_discrete}
use concurrency_in_action.Common.{
  ℕ, ◌<◌, ◌≡◌, ◌≢◌, ◌⊎◌, refl, sym, ap, ◌∙◌, inl, inr, Option, none, some, arith, update,
  update_self, update_ne,
}
use concurrency_in_action.Nodes.{Node}
use concurrency_in_action.ThreadSafeList.{
  Local, resting, pushing, linking, starting, arrived, waiting, holding, unlinked, visiting, State,
  new_list,
}
use concurrency_in_action.ThreadSafeList.Shape.{
  IsThere, HasValue, PointsTo, NotPointed, Shape, points_cases, IsThere-cases,
}

module _ {ℓ} {T : Type ℓ} where
  -- What thread `t` has locked and what it has read stays so until it goes on.
  abbrev pub Placed : (ℕ → Option (Node T)) → (ℕ → Option ℕ) → ℕ → Local T → Type ℓ
  Placed heap locks t (resting r) = Unit
  Placed heap locks t (pushing v) = Unit
  Placed heap locks t (starting j) = Unit
  Placed heap locks t (linking v) = (locks 0 ≡ some t) × Unit {ℓ}
  Placed heap locks t (arrived j cur) = (locks cur ≡ some t) × IsThere heap cur
  Placed heap locks t (waiting j cur nx) = (locks cur ≡ some t) × PointsTo (heap cur) nx
  Placed heap locks t (holding j cur nx) =
      (locks cur ≡ some t) × (locks nx ≡ some t) × PointsTo (heap cur) nx
  Placed heap locks t (visiting j nx) = (locks nx ≡ some t) × HasValue heap nx
  Placed heap locks t (unlinked j cur nx) =
      (locks cur ≡ some t)
      × (locks nx ≡ some t)
      × IsThere heap cur
      × IsThere heap nx
      × NotPointed heap nx
      × (cur ≢ nx)
      × (0 < nx)

  -- The nodes that a thread has locked.
  abbrev pub Holds : Local T → ℕ → Type 0
  Holds (resting r) a = ⊥
  Holds (pushing v) a = ⊥
  Holds (starting j) a = ⊥
  Holds (linking v) a = a ≡ 0
  Holds (arrived j cur) a = a ≡ cur
  Holds (waiting j cur nx) a = a ≡ cur
  Holds (holding j cur nx) a = (a ≡ cur) ⊎ (a ≡ nx)
  Holds (visiting j nx) a = a ≡ nx
  Holds (unlinked j cur nx) a = (a ≡ cur) ⊎ (a ≡ nx)

  pub record Inv (s : State T) : Type ℓ where
    pub shape : Shape s.heap s.fresh
    pub placed : (t : ℕ) → Placed s.heap s.locks t (s.local t)
    pub only : (a t : ℕ) → s.locks a ≡ some t → Holds (s.local t) a

  pub new_list-Inv : Inv new_list
  new_list-Inv = record {
    shape = record {
      head_there = (record { data_ = none; next = none }, refl);
      below = λ a h. elim (IsThere-cases (λ b. none) 0 _ a h) [
        | inl same ↦ omega arith
        | inr (n, e) ↦ absurd (cc)
      ];
      ordered = λ a b h. absurd (empty_points a b h);
      valued = λ a b h. absurd (empty_points a b h);
      one_predecessor = λ a c b h k. absurd (empty_points a b h);
    };
    placed = λ t. tt;
    only = λ a t e. absurd (cc);
  }
    where
      empty_points : (a b : ℕ) → PointsTo ((new_list {T = T}).heap a) b → ⊥
      empty_points a b h =
          elim (points_cases (λ b. none) 0 (some (record { data_ = none; next = none })) a b h) [
            | inl (same, (n, e, p)) ↦ cc
            | inr (other, (n, e, p)) ↦ cc
          ]

  -- A change of heap and locks that leaves alone what thread `u` has locked.
  pub record Frame (heap heap' : ℕ → Option (Node T)) (locks locks' : ℕ → Option ℕ) (u : ℕ)
      : Type ℓ where
    pub keeps_locks : (a : ℕ) → locks a ≡ some u → locks' a ≡ some u
    pub keeps_nodes : (a : ℕ) → locks a ≡ some u → heap' a ≡ heap a
    pub keeps_alone : (b : ℕ) → IsThere heap b → NotPointed heap b → NotPointed heap' b

  module _ (heap heap' : ℕ → Option (Node T)) (locks locks' : ℕ → Option ℕ) (u : ℕ)
      (f : Frame heap heap' locks locks' u) where
    there : (a : ℕ) → locks a ≡ some u → IsThere heap a → IsThere heap' a
    there a l (n, e) = (n, f.keeps_nodes a l ∙ e)

    points : (a b : ℕ) → locks a ≡ some u → PointsTo (heap a) b → PointsTo (heap' a) b
    points a b l (n, e, p) = (n, f.keeps_nodes a l ∙ e, p)

    Placed-Frame : (l : Local T) → Placed heap locks u l → Placed heap' locks' u l
    Placed-Frame (resting r) h = tt
    Placed-Frame (pushing v) h = tt
    Placed-Frame (starting j) h = tt
    Placed-Frame (linking v) (l, _) = (f.keeps_locks 0 l, tt)
    Placed-Frame (arrived j cur) (l, h) = (f.keeps_locks cur l, there cur l h)
    Placed-Frame (waiting j cur nx) (l, p) = (f.keeps_locks cur l, points cur nx l p)
    Placed-Frame (holding j cur nx) (l, l', p) =
        (f.keeps_locks cur l, f.keeps_locks nx l', points cur nx l p)
    Placed-Frame (visiting j nx) (l, (n, x, e, d)) =
        (f.keeps_locks nx l, (n, x, f.keeps_nodes nx l ∙ e, d))
    Placed-Frame (unlinked j cur nx) (l, l', h, h', alone, ne, pos) = (
      f.keeps_locks cur l,
      f.keeps_locks nx l',
      there cur l h,
      there nx l' h',
      f.keeps_alone nx h' alone,
      ne,
      pos,
    )

  -- Thread `t` goes to `l`, with new heap and locks that leave the other threads alone.
  pub advance :
      (s s' : State T) (t : ℕ) (l : Local T)
      → Inv s
      → s'.local ≡ update s.local t l
      → Shape s'.heap s'.fresh
      → ((u : ℕ) → t ≢ u → Frame s.heap s'.heap s.locks s'.locks u)
      → Placed s'.heap s'.locks t l
      → ((a : ℕ) → s'.locks a ≡ some t → Holds l a)
      → ((a u : ℕ) → t ≢ u → s'.locks a ≡ some u → s.locks a ≡ some u)
      → Inv s'
  advance s s' t l i e shape frames mine holds others = record {
    shape = shape;
    placed = λ u. elim (ℕ_discrete t u) [
      | yes same ↦
          subst (Placed s'.heap s'.locks u)
            (sym (ap (λ f. f u) e ∙ ap (update s.local t l) (sym same) ∙ update_self s.local t l))
            (subst (λ v. Placed s'.heap s'.locks v l) same mine)
      | no other ↦
          subst (Placed s'.heap s'.locks u) (sym (ap (λ f. f u) e ∙ update_ne s.local t u l other))
            (Placed-Frame s.heap s'.heap s.locks s'.locks u (frames u other) (s.local u)
              (i.placed u))
    ];
    only = λ a u k. elim (ℕ_discrete t u) [
      | yes same ↦
          subst (λ m. Holds m a)
            (sym (ap (λ f. f u) e ∙ ap (update s.local t l) (sym same) ∙ update_self s.local t l))
            (holds a (k ∙ ap some (sym same)))
      | no other ↦
          subst (λ m. Holds m a) (sym (ap (λ f. f u) e ∙ update_ne s.local t u l other))
            (i.only a u (others a u other k))
    ];
  }

-- Locks taken and given back by thread `t` are not those of another.
module _ (locks : ℕ → Option ℕ) (b t : ℕ) where
  pub taken_keeps :
      locks b ≡ none → (a u : ℕ) → locks a ≡ some u → update locks b (some t) a ≡ some u
  taken_keeps e a u h = elim (ℕ_discrete b a) [
    | yes same ↦ absurd (cc)
    | no other ↦ update_ne locks b a (some t) other ∙ h
  ]

  pub taken_only : (a u : ℕ) → t ≢ u → update locks b (some t) a ≡ some u → locks a ≡ some u
  taken_only a u ne h = elim (ℕ_discrete b a) [
    | yes same ↦ absurd (
        ne (
          some-injective t u
            (sym (update_self locks b (some t)) ∙ ap (update locks b (some t)) same ∙ h)))
    | no other ↦ sym (update_ne locks b a (some t) other) ∙ h
  ]

  pub taken_mine : (a : ℕ) → update locks b (some t) a ≡ some t → (a ≡ b) ⊎ (locks a ≡ some t)
  taken_mine a h = elim (ℕ_discrete b a) [
    | yes same ↦ inl (sym same)
    | no other ↦ inr (sym (update_ne locks b a (some t) other) ∙ h)
  ]

  pub given_keeps :
      locks b ≡ some t → (a u : ℕ) → t ≢ u → locks a ≡ some u → update locks b none a ≡ some u
  given_keeps e a u ne h = elim (ℕ_discrete b a) [
    | yes same ↦ absurd (ne (some-injective t u (sym e ∙ ap locks same ∙ h)))
    | no other ↦ update_ne locks b a none other ∙ h
  ]

  pub given_only : (a u : ℕ) → update locks b none a ≡ some u → (b ≢ a) × (locks a ≡ some u)
  given_only a u h = elim (ℕ_discrete b a) [
    | yes same ↦
        absurd (none_some u (sym (update_self locks b none) ∙ ap (update locks b none) same ∙ h))
    | no other ↦ (other, sym (update_ne locks b a none other) ∙ h)
  ]
    where
      none_some : (u : ℕ) → none ≢ some u
      none_some u e = cc
