-- ===== src/LookupTable.antt =====
-- chapter06_lock_based_data_structures/thread_safe_lookup_table.h: `thread_safe_lookup_table`. Each
-- operation works on one bucket under that bucket's lock, and `get_map` holds all the locks, so an
-- operation is one step. The key's `==` and the hash function are parameters.
pub mod Bucket
pub mod Laws
pub mod Snapshot
mod Examples
use concurrency_in_action.Common.{
  ℕ, zero, suc, ◌+◌, ◌%◌, ◌<◌, ◌≡◌, ◌↔◌, Bool, true, false, if◌then◌else◌, Option, none, some, List,
  [], ◌∷◌, ◌++◌, ◌>>=◌, length, get_elem?, set, erase_at, replicate,
}
use mathlib.Core.Option

-- What the table needs of its keys: `==` is equality, and `hasher` is a function.
pub record Keys {ℓ} (K : Type ℓ) : Type ℓ where
  pub eq : K → K → Bool
  pub eq_iff : (j k : K) → (eq j k ≡ true) ↔ (j ≡ k)
  pub hasher : K → ℕ

-- The vector of buckets.
abbrev pub Table {ℓ κ} : Type ℓ → Type κ → Type (ℓ ⊔ κ)
Table K V = List (List (K × V))

-- The constructor.
abbrev pub new_table {ℓ κ} : {K : Type ℓ} {V : Type κ} → ℕ → Table K V
new_table num_buckets = replicate num_buckets []

module _ {ℓ κ} {K : Type ℓ} {V : Type κ} where
  -- `found_entry->second`; the position is in range wherever it is used.
  abbrev pub second_at : List (K × V) → ℕ → V → V
  second_at [] i d = d
  second_at ((k, v) ∷ rest) zero d = v
  second_at (e ∷ rest) (suc i) d = second_at rest i d

  abbrev pub set_second_at : List (K × V) → ℕ → V → List (K × V)
  set_second_at [] i v = []
  set_second_at ((k, old) ∷ rest) zero v = (k, v) ∷ rest
  set_second_at (e ∷ rest) (suc i) v = e ∷ set_second_at rest i v

  abbrev pub value_at : Option ℕ → List (K × V) → V → V
  value_at none data_ d = d
  value_at (some i) data_ d = second_at data_ i d

  abbrev pub write_at : Option ℕ → K → V → List (K × V) → List (K × V)
  write_at none key value data_ = data_ ++ ((key, value) ∷ [])
  write_at (some i) key value data_ = set_second_at data_ i value

  abbrev pub remove_at : Option ℕ → List (K × V) → List (K × V)
  remove_at none data_ = data_
  remove_at (some i) data_ = erase_at data_ i

module _ {ℓ κ} {K : Type ℓ} {V : Type κ} (keys : Keys K) where
  open keys use {eq, hasher}

  -- `find_entry_for`: an iterator is a position; `none` is `data.end()`.
  unfoldable pub find_entry_for : K → List (K × V) → Option ℕ
  find_entry_for key [] = none
  find_entry_for key ((first, second) ∷ rest) =
      if eq first key then some 0 else Option.map suc (find_entry_for key rest)

  -- The operations of `bucket_type`.
  unfoldable pub bucket_value_for : K → V → List (K × V) → V
  unfolding find_entry_for
  bucket_value_for key default_value b = value_at (find_entry_for key b) b default_value

  unfoldable pub bucket_add_or_update : K → V → List (K × V) → List (K × V)
  unfolding find_entry_for
  bucket_add_or_update key value b = write_at (find_entry_for key b) key value b

  unfoldable pub bucket_remove : K → List (K × V) → List (K × V)
  unfolding find_entry_for
  bucket_remove key b = remove_at (find_entry_for key b) b

  abbrev pub bucket_index : K → Table K V → ℕ
  bucket_index key t = hasher key % length t

  -- `none` is undefined behaviour: a table with no buckets divides by zero.
  unfoldable pub value_for : K → V → Table K V → Option V
  unfolding bucket_value_for
  value_for key default_value t =
      Option.map (bucket_value_for key default_value) (get_elem? t (bucket_index key t))

  unfoldable pub add_or_update_mapping : K → V → Table K V → Option (Table K V)
  unfolding bucket_add_or_update
  add_or_update_mapping key value t =
      Option.map (λ b. set t (bucket_index key t) (bucket_add_or_update key value b))
        (get_elem? t (bucket_index key t))

  unfoldable pub remove_mapping : K → Table K V → Option (Table K V)
  unfolding bucket_remove
  remove_mapping key t =
      Option.map (λ b. set t (bucket_index key t) (bucket_remove key b))
        (get_elem? t (bucket_index key t))

  -- A `std::map`, by its lookup. `insert` leaves a key that is there as it is.
  abbrev pub insert_entry : Option V → K × V → (K → Option V) → K → Option V
  insert_entry none (key, value) m j = if eq key j then some value else m j
  insert_entry (some old) e m j = m j

  abbrev pub insert : K × V → (K → Option V) → K → Option V
  insert (key, value) m = insert_entry (m key) (key, value) m

  abbrev pub insert_bucket : List (K × V) → (K → Option V) → K → Option V
  insert_bucket [] m = m
  insert_bucket (e ∷ rest) m = insert_bucket rest (insert e m)

  abbrev pub insert_buckets : Table K V → (K → Option V) → K → Option V
  insert_buckets [] m = m
  insert_buckets (b ∷ rest) m = insert_buckets rest (insert_bucket b m)

  unfoldable pub get_map : Table K V → K → Option V
  get_map t = insert_buckets t (λ j. none)
