-- ===== src/LookupTable/Bucket.antt =====
-- A bucket as a finite map.
use concurrency_in_action.Common.{
  ℕ, suc, ◌≡◌, refl, sym, ◌∙◌, Bool, true, false, Bool-cases, inl, inr, if◌then◌else◌, Option, none,
  some, List, [], ◌∷◌, arith,
}
use mathlib.Core.Option
use concurrency_in_action.LookupTable.{
  Keys, find_entry_for, value_at, write_at, remove_at, bucket_value_for, bucket_add_or_update,
  bucket_remove,
}

abbrev pub or_else {ℓ} : {A : Type ℓ} → Option A → Option A → Option A
or_else none o = o
or_else (some a) o = some a

abbrev pub value_or {ℓ} : {A : Type ℓ} → Option A → A → A
value_or none d = d
value_or (some a) d = a

if_same {ℓ} : {A : Type ℓ} (b : Bool) (a : A) → a ≡ (if b then a else a)
if_same true a = refl
if_same false a = refl

module _ {ℓ κ} {K : Type ℓ} {V : Type κ} where
  value_at-suc :
      (o : Option ℕ) (e : K × V) (b : List (K × V)) (d : V)
      → value_at (Option.map suc o) (e ∷ b) d ≡ value_at o b d
  value_at-suc none e b d = refl
  value_at-suc (some i) e b d = refl

  write_at-suc :
      (o : Option ℕ) (e : K × V) (key : K) (v : V) (b : List (K × V))
      → write_at (Option.map suc o) key v (e ∷ b) ≡ e ∷ write_at o key v b
  write_at-suc none e key v b = refl
  write_at-suc (some i) e key v b = refl

  remove_at-suc :
      (o : Option ℕ) (e : K × V) (b : List (K × V))
      → remove_at (Option.map suc o) (e ∷ b) ≡ e ∷ remove_at o b
  remove_at-suc none e b = refl
  remove_at-suc (some i) e b = refl

module _ {ℓ κ} {K : Type ℓ} {V : Type κ} (keys : Keys K) where
  open keys use {eq, eq_iff}

  -- The value of the first entry with the key.
  abbrev pub lookup : K → List (K × V) → Option V
  lookup key [] = none
  lookup key ((k, v) ∷ rest) = if eq k key then some v else lookup key rest

  -- No key stands in two entries.
  abbrev pub IsDistinct : List (K × V) → Type κ
  IsDistinct [] = Unit
  IsDistinct ((k, v) ∷ rest) = (lookup k rest ≡ none) × IsDistinct rest

  pub bucket_value_for-lookup :
      (key : K) (d : V) (b : List (K × V))
      → bucket_value_for keys key d b ≡ value_or (lookup key b) d
  unfolding bucket_value_for
  bucket_value_for-lookup key d [] = refl
  bucket_value_for-lookup key d ((k, v) ∷ rest) = elim (Bool-cases (eq k key)) [
    | inl same ↦ rw same
    | inr other ↦ rw other (
        value_at-suc (find_entry_for keys key rest) (k, v) rest d
        ∙ bucket_value_for-lookup key d rest)
  ]

  overwrite :
      (key j : K) (v old : V) (o : Option V)
      → (if eq key j then some v else o)
        ≡ (if eq key j then some v else if eq key j then some old else o)
  overwrite key j v old o = elim (Bool-cases (eq key j)) [ inl h ↦ rw h | inr h ↦ rw h ]

  -- Tests of two different keys can be made in either order.
  exchange :
      (k key j : K) (old : V) (new o : Option V)
      → eq k key ≡ false
      → (if eq k j then some old else if eq key j then new else o)
        ≡ (if eq key j then new else if eq k j then some old else o)
  exchange k key j old new o ne = ground (arith, eq_iff k j, eq_iff key j, eq_iff k key)

  removed :
      (k key j : K) (v : V) (rest : List (K × V))
      → k ≡ key
      → lookup k rest ≡ none
      → lookup j rest ≡ (if eq key j then none else if eq k j then some v else lookup j rest)
  removed k key j v rest same gone = elim (Bool-cases (eq key j)) [
    | inl h ↦ rw h (rw (← (eq_iff key j).0 h) (rw (← same) gone))
    | inr h ↦ rw h (ground (arith, eq_iff k j, eq_iff key j))
  ]

  new_key :
      (key k : K) (v : V) (o : Option V)
      → eq k key ≡ false
      → o ≡ none
      → (if eq key k then some v else o) ≡ none
  new_key key k v o ne gone = ground (arith, eq_iff key k, eq_iff k key)

  pub lookup-bucket_add_or_update :
      (key j : K) (v : V) (b : List (K × V))
      → lookup j (bucket_add_or_update keys key v b) ≡ (if eq key j then some v else lookup j b)
  unfolding bucket_add_or_update
  lookup-bucket_add_or_update key j v [] = refl
  lookup-bucket_add_or_update key j v ((k, old) ∷ rest) = elim (Bool-cases (eq k key)) [
    | inl same ↦ rw same (rw ((eq_iff k key).0 same) (overwrite key j v old (lookup j rest)))
    | inr other ↦
        rw (other, write_at-suc (find_entry_for keys key rest) (k, old) key v rest)
          (rw (lookup-bucket_add_or_update key j v rest)
            (exchange k key j old (some v) (lookup j rest) other))
  ]

  pub lookup-bucket_remove :
      (key j : K) (b : List (K × V))
      → IsDistinct b
      → lookup j (bucket_remove keys key b) ≡ (if eq key j then none else lookup j b)
  unfolding bucket_remove
  lookup-bucket_remove key j [] d = if_same (eq key j) none
  lookup-bucket_remove key j ((k, v) ∷ rest) d = elim (Bool-cases (eq k key)) [
    | inl same ↦ rw same (removed k key j v rest ((eq_iff k key).0 same) d.0)
    | inr other ↦
        rw (other, remove_at-suc (find_entry_for keys key rest) (k, v) rest)
          (rw (lookup-bucket_remove key j rest d.1) (exchange k key j v none (lookup j rest) other))
  ]

  -- The operations keep the keys distinct.
  pub bucket_add_or_update-IsDistinct :
      (key : K) (v : V) (b : List (K × V))
      → IsDistinct b
      → IsDistinct (bucket_add_or_update keys key v b)
  unfolding bucket_add_or_update
  bucket_add_or_update-IsDistinct key v [] d = (refl, tt)
  bucket_add_or_update-IsDistinct key v ((k, old) ∷ rest) d = elim (Bool-cases (eq k key)) [
    | inl same ↦ rw same d
    | inr other ↦
        rw (other, write_at-suc (find_entry_for keys key rest) (k, old) key v rest)
          (
            lookup-bucket_add_or_update key k v rest ∙ new_key key k v (lookup k rest) other d.0,
            bucket_add_or_update-IsDistinct key v rest d.1,
          )
  ]

  pub bucket_remove-IsDistinct :
      (key : K) (b : List (K × V)) → IsDistinct b → IsDistinct (bucket_remove keys key b)
  unfolding bucket_remove
  bucket_remove-IsDistinct key [] d = tt
  bucket_remove-IsDistinct key ((k, v) ∷ rest) d = elim (Bool-cases (eq k key)) [
    | inl same ↦ rw same d.1
    | inr other ↦
        rw (other, remove_at-suc (find_entry_for keys key rest) (k, v) rest)
          (
            lookup-bucket_remove key k rest d.1 ∙ rw (d.0) (sym (if_same (eq key k) none)),
            bucket_remove-IsDistinct key rest d.1,
          )
  ]
