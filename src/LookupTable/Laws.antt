-- ===== src/LookupTable/Laws.antt =====
-- The table as a finite map.
use mathlib.Core.Option.{some-injective}
use mathlib.Core.Path.{subst}
use native.Mathlib.Nat.{mod-lt}
use native.Mathlib.Decide.{ℕ_discrete}
use concurrency_in_action.Common.{
  ℕ, zero, suc, ◌<◌, ◌≡◌, ◌≢◌, refl, sym, ap, ◌∙◌, Bool, true, false, Bool-cases, inl, inr,
  if◌then◌else◌, Option, none, some, List, [], ◌>>=◌, length, get_elem?, set, replicate, length-set,
  length-replicate, get_elem?-set_self, get_elem?-set_ne, get_elem?-in_range,
}
use concurrency_in_action.LookupTable.{
  Keys, Table, new_table, bucket_index, value_for, add_or_update_mapping, remove_mapping,
  bucket_add_or_update, bucket_remove,
}
use concurrency_in_action.LookupTable.Bucket.{
  lookup, value_or, IsDistinct, bucket_value_for-lookup, lookup-bucket_add_or_update,
  lookup-bucket_remove, bucket_add_or_update-IsDistinct, bucket_remove-IsDistinct,
}

module _ {ℓ κ} {K : Type ℓ} {V : Type κ} (keys : Keys K) where
  open keys use {eq, eq_iff, hasher}

  -- There are buckets, each holds a key at most once, and only keys that belong there.
  pub record IsValid (t : Table K V) : Type (ℓ ⊔ κ) where
    pub nonempty : 0 < length t
    pub distinct : (i : ℕ) (b : List (K × V)) → get_elem? t i ≡ some b → IsDistinct keys b
    pub placed :
        (i : ℕ) (b : List (K × V)) (k : K)
        → get_elem? t i ≡ some b
        → bucket_index keys k t ≢ i
        → lookup keys k b ≡ none

  get_elem?-replicate :
      (n i : ℕ) (b : List (K × V)) → get_elem? (replicate n []) i ≡ some b → b ≡ []
  get_elem?-replicate zero i b e = cc
  get_elem?-replicate (suc n) zero b e = cc
  get_elem?-replicate (suc n) (suc i) b e = get_elem?-replicate n i b e

  pub new_table-IsValid : (n : ℕ) → 0 < n → IsValid (new_table n)
  new_table-IsValid n h = record {
    nonempty = rw (length-replicate {A = List (K × V)} n []) h;
    distinct = λ i b e. rw (get_elem?-replicate n i b e) tt;
    placed = λ i b k e ne. rw (get_elem?-replicate n i b e);
  }

  pub the_bucket :
      (k : K) (t : Table K V)
      → 0 < length t
      → (b : List (K × V)) × (get_elem? t (bucket_index keys k t) ≡ some b)
  the_bucket k t h = get_elem?-in_range t (bucket_index keys k t) (mod-lt (hasher k) h)

  pub value_for-get :
      (t : Table K V) (j : K) (d : V) (c : List (K × V))
      → get_elem? t (bucket_index keys j t) ≡ some c
      → value_for keys j d t ≡ some (value_or (lookup keys j c) d)
  unfolding value_for
  value_for-get t j d c e = rw e (ap some (bucket_value_for-lookup keys j d c))

  -- One bucket is replaced by `b'`, in which the key is bound anew.
  module _ (key : K) (t : Table K V) (b b' : List (K × V)) (new : Option V) (h : 0 < length t)
      (here : get_elem? t (bucket_index keys key t) ≡ some b)
      (bound : (j : K) → lookup keys j b' ≡ (if eq key j then new else lookup keys j b)) where
    abbrev pub replaced : Table K V
    replaced = set t (bucket_index keys key t) b'

    bucket_index-replaced : (j : K) → bucket_index keys j replaced ≡ bucket_index keys j t
    bucket_index-replaced j = rw (length-set t (bucket_index keys key t) b')

    get-replaced_same :
        (j : K)
        → bucket_index keys key t ≡ bucket_index keys j t
        → get_elem? replaced (bucket_index keys j replaced) ≡ some b'
    get-replaced_same j e =
        ap (get_elem? replaced) (bucket_index-replaced j ∙ sym e)
        ∙ get_elem?-set_self t (bucket_index keys key t) b' (mod-lt (hasher key) h)

    get-replaced_other :
        (j : K)
        → bucket_index keys key t ≢ bucket_index keys j t
        → get_elem? replaced (bucket_index keys j replaced) ≡ get_elem? t (bucket_index keys j t)
    get-replaced_other j ne =
        ap (get_elem? replaced) (bucket_index-replaced j)
        ∙ get_elem?-set_ne t (bucket_index keys key t) (bucket_index keys j t) b' ne

    other_key : (j : K) → bucket_index keys key t ≢ bucket_index keys j t → eq key j ≡ false
    other_key j ne = elim (Bool-cases (eq key j)) [
      | inl same ↦ absurd (ne (ap (λ k. bucket_index keys k t) ((eq_iff key j).0 same)))
      | inr other ↦ other
    ]

    value_if :
        (c : Bool) (o : Option V) (d : V)
        → some (value_or (if c then new else o) d)
          ≡ (if c then some (value_or new d) else some (value_or o d))
    value_if true o d = refl
    value_if false o d = refl

    pub value_for-replaced :
        (j : K) (d : V)
        → value_for keys j d replaced
          ≡ (if eq key j then some (value_or new d) else value_for keys j d t)
    value_for-replaced j d = elim (ℕ_discrete (bucket_index keys key t) (bucket_index keys j t)) [
      | yes same ↦
          value_for-get replaced j d b' (get-replaced_same j same)
          ∙ rw (bound j) (value_if (eq key j) (lookup keys j b) d)
          ∙ ap (λ o. if eq key j then some (value_or new d) else o)
              (sym (value_for-get t j d b (ap (get_elem? t) (sym same) ∙ here)))
      | no other ↦
          let (c, e) = the_bucket j t h in
          value_for-get replaced j d c (get-replaced_other j other ∙ e)
          ∙ rw (other_key j other) (sym (value_for-get t j d c e))
    ]

    same_bucket :
        (i : ℕ) (c : List (K × V))
        → bucket_index keys key t ≡ i
        → get_elem? replaced i ≡ some c
        → b' ≡ c
    same_bucket i c same e = some-injective b' c (
        sym (get_elem?-set_self t (bucket_index keys key t) b' (mod-lt (hasher key) h))
        ∙ ap (get_elem? replaced) same
        ∙ e)

    unbound :
        IsValid t
        → (k : K) → bucket_index keys key t ≢ bucket_index keys k t
        → (if eq key k then new else lookup keys k b) ≡ none
    unbound v k ne =
        rw (other_key k ne) (v.placed (bucket_index keys key t) b k here (λ q. ne (sym q)))

    pub replaced-IsValid : IsDistinct keys b' → IsValid t → IsValid replaced
    replaced-IsValid d v = record {
      nonempty = rw (length-set t (bucket_index keys key t) b') h;
      distinct = λ i c e. elim (ℕ_discrete (bucket_index keys key t) i) [
        | yes same ↦ subst (IsDistinct keys) (same_bucket i c same e) d
        | no other ↦ v.distinct i c (sym (get_elem?-set_ne t _ i b' other) ∙ e)
      ];
      placed = λ i c k e ne. elim (ℕ_discrete (bucket_index keys key t) i) [
        | yes same ↦
            subst (λ x. lookup keys k x ≡ none) (same_bucket i c same e)
              (bound k ∙ unbound v k (λ q. ne (bucket_index-replaced k ∙ sym q ∙ same)))
        | no other ↦
            v.placed i c k (sym (get_elem?-set_ne t _ i b' other) ∙ e)
              (λ q. ne (bucket_index-replaced k ∙ q))
      ];
    }

  -- A table with at least one bucket: after `add_or_update_mapping(key, v)` it gives `v` for that key, and for any other key
  -- what it gave before.
  pub value_for-add_or_update_mapping :
      (key j : K) (v d : V) (t : Table K V)
      → 0 < length t
      → (add_or_update_mapping keys key v t >>= value_for keys j d)
        ≡ (if eq key j then some v else value_for keys j d t)
  unfolding add_or_update_mapping
  value_for-add_or_update_mapping key j v d t h =
      let (b, e) = the_bucket key t h in
      rw e (
        value_for-replaced key t b (bucket_add_or_update keys key v b) (some v) h e
          (λ i. lookup-bucket_add_or_update keys key i v b) j d)

  -- After `remove_mapping(key)` a valid table gives the default for that key, and for any other key
  -- what it gave before.
  pub value_for-remove_mapping :
      (key j : K) (d : V) (t : Table K V)
      → IsValid t
      → (remove_mapping keys key t >>= value_for keys j d)
        ≡ (if eq key j then some d else value_for keys j d t)
  unfolding remove_mapping
  value_for-remove_mapping key j d t v =
      let (b, e) = the_bucket key t v.nonempty in
      rw e (
        value_for-replaced key t b (bucket_remove keys key b) none v.nonempty e
          (λ i. lookup-bucket_remove keys key i b (v.distinct _ b e)) j d)

  -- A new table with at least one bucket is valid, and a valid table stays valid under each
  -- operation, which has a result: no bucket ever holds a key twice, or a key of another bucket.
  pub operations-IsValid :
      (n : ℕ) (key : K) (v : V) (t : Table K V)
      → 0 < n
      → IsValid t
      → IsValid (new_table n)
        × ((t' : Table K V) × (add_or_update_mapping keys key v t ≡ some t') × IsValid t')
        × ((t' : Table K V) × (remove_mapping keys key t ≡ some t') × IsValid t')
  unfolding add_or_update_mapping remove_mapping
  operations-IsValid n key v t h valid =
      let (b, e) = the_bucket key t valid.nonempty in
      let d = valid.distinct _ b e in
      (
        new_table-IsValid n h,
        (
          _,
          rw e,
          replaced-IsValid key t b (bucket_add_or_update keys key v b) (some v) valid.nonempty e
              (λ i. lookup-bucket_add_or_update keys key i v b)
              (bucket_add_or_update-IsDistinct keys key v b d) valid,
        ),
        (
          _,
          rw e,
          replaced-IsValid key t b (bucket_remove keys key b) none valid.nonempty e
              (λ i. lookup-bucket_remove keys key i b d) (bucket_remove-IsDistinct keys key b d)
              valid,
        ),
      )
