-- ===== src/LookupTable/Snapshot.antt =====
-- `get_map` against `value_for`.
use mathlib.Core.Option.{some-injective}
use concurrency_in_action.Common.{
  ℕ, zero, suc, ◌≡◌, ◌≢◌, refl, sym, ap, ◌∙◌, Bool, true, false, Bool-cases, inl, inr,
  if◌then◌else◌, Option, none, some, List, [], ◌∷◌, arith, get_elem?,
}
use concurrency_in_action.LookupTable.{
  Keys, Table, bucket_index, value_for, insert_entry, insert, insert_bucket, insert_buckets,
  get_map,
}
use concurrency_in_action.LookupTable.Bucket.{or_else, value_or, lookup}
use concurrency_in_action.LookupTable.Laws.{IsValid, the_bucket, value_for-get}

or_else-none {ℓ} : {A : Type ℓ} (o : Option A) → o ≡ or_else o none
or_else-none none = refl
or_else-none (some a) = refl

or_else-test {ℓ} :
    {A : Type ℓ} (o o' : Option A) (c : Bool) (v : A)
    → or_else (or_else o (if c then some v else none)) o' ≡ or_else o (if c then some v else o')
or_else-test (some a) o' c v = refl
or_else-test none o' true v = refl
or_else-test none o' false v = refl

module _ {ℓ κ} {K : Type ℓ} {V : Type κ} (keys : Keys K) where
  open keys use {eq, eq_iff}

  present :
      (k j : K) (v old : V) (m : K → Option V)
      → m k ≡ some old
      → m j ≡ or_else (m j) (if eq k j then some v else none)
  present k j v old m e = elim (Bool-cases (eq k j)) [
    | inl same ↦ rw (same, ← (eq_iff k j).0 same, e)
    | inr other ↦ rw other (or_else-none (m j))
  ]

  absent :
      (k j : K) (v : V) (m : K → Option V)
      → m k ≡ none
      → (if eq k j then some v else m j) ≡ or_else (m j) (if eq k j then some v else none)
  absent k j v m e = elim (Bool-cases (eq k j)) [
    | inl same ↦ rw (same, ← (eq_iff k j).0 same, e)
    | inr other ↦ rw other (or_else-none (m j))
  ]

  insert_entry-or_else :
      (o : Option V) (k j : K) (v : V) (m : K → Option V)
      → m k ≡ o
      → insert_entry keys o (k, v) m j ≡ or_else (m j) (if eq k j then some v else none)
  insert_entry-or_else none k j v m e = absent k j v m e
  insert_entry-or_else (some old) k j v m e = present k j v old m e

  insert_bucket-lookup :
      (b : List (K × V)) (m : K → Option V) (j : K)
      → insert_bucket keys b m j ≡ or_else (m j) (lookup keys j b)
  insert_bucket-lookup [] m j = or_else-none (m j)
  insert_bucket-lookup ((k, v) ∷ rest) m j =
      insert_bucket-lookup rest (insert keys (k, v) m) j
      ∙ ap (λ o. or_else o (lookup keys j rest)) (insert_entry-or_else (m k) k j v m refl)
      ∙ or_else-test (m j) (lookup keys j rest) (eq k j) v

  -- Every bucket but number `i` knows nothing of `j`, and the map is empty there.
  insert_buckets-elsewhere :
      (t : Table K V) (m : K → Option V) (j : K)
      → ((i : ℕ) (b : List (K × V)) → get_elem? t i ≡ some b → lookup keys j b ≡ none)
      → insert_buckets keys t m j ≡ m j
  insert_buckets-elsewhere [] m j h = refl
  insert_buckets-elsewhere (b ∷ t) m j h =
      insert_buckets-elsewhere t (insert_bucket keys b m) j (λ i c e. h (suc i) c e)
      ∙ insert_bucket-lookup b m j
      ∙ rw (h 0 b refl) (sym (or_else-none (m j)))

  insert_buckets-at :
      (t : Table K V) (m : K → Option V) (j : K) (n : ℕ) (c : List (K × V))
      → m j ≡ none
      → get_elem? t n ≡ some c
      → ((i : ℕ) (b : List (K × V)) → get_elem? t i ≡ some b → n ≢ i → lookup keys j b ≡ none)
      → insert_buckets keys t m j ≡ lookup keys j c
  insert_buckets-at [] m j n c e here h = absurd (cc)
  insert_buckets-at (b ∷ t) m j zero c e here h =
      insert_buckets-elsewhere t (insert_bucket keys b m) j (λ i d g. h (suc i) d g (omega arith))
      ∙ insert_bucket-lookup b m j
      ∙ rw e (ap (lookup keys j) (some-injective b c here))
  insert_buckets-at (b ∷ t) m j (suc n) c e here h =
      insert_buckets-at t (insert_bucket keys b m) j n c
        (insert_bucket-lookup b m j ∙ rw e (h 0 b refl (omega arith))) here
        (λ i d g ne. h (suc i) d g (omega arith))

  -- For a valid table, `value_for(key, d)` is what the map that `get_map` returns holds for the
  -- key, or `d` if the key is not in it.
  pub value_for-get_map :
      (k : K) (d : V) (t : Table K V)
      → IsValid keys t
      → value_for keys k d t ≡ some (value_or (get_map keys t k) d)
  unfolding get_map
  value_for-get_map k d t v =
      let (c, e) = the_bucket keys k t v.nonempty in
      value_for-get keys t k d c e
      ∙ ap (λ o. some (value_or o d))
          (sym (
            insert_buckets-at t (λ j. none) k (bucket_index keys k t) c refl e
              (λ i b g ne. v.placed i b k g ne)))
