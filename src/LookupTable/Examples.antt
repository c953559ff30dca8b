-- ===== src/LookupTable/Examples.antt =====
-- A table of three buckets whose keys are numbers, each its own hash.
use mathlib.Core.Option.{some-injective}
use mathlib.Core.Path.{subst}
use native.Mathlib.Omega.{arith}
use concurrency_in_action.Common.{
  ℕ, ◌≡◌, refl, sym, ◌∙◌, ◌==◌, ==_iff, Option, some, [], ◌∷◌, ◌>>=◌,
}
use concurrency_in_action.LookupTable.{
  Keys, Table, new_table, value_for, add_or_update_mapping, remove_mapping, get_map,
}
use concurrency_in_action.LookupTable.Bucket.{value_or}
use concurrency_in_action.LookupTable.Laws.{
  IsValid, new_table-IsValid, value_for-add_or_update_mapping, value_for-remove_mapping,
  operations-IsValid,
}
use concurrency_in_action.LookupTable.Snapshot.{value_for-get_map}

abbrev numbers : Keys ℕ
numbers = record { eq = ◌==◌; eq_iff = ==_iff; hasher = λ n. n }

abbrev empty_table : Table ℕ ℕ
empty_table = new_table 3

empty_table-IsValid : IsValid numbers empty_table
empty_table-IsValid = new_table-IsValid numbers 3 (omega arith)

-- 4 and 7 fall into the same bucket.
abbrev two_keys : Table ℕ ℕ
two_keys = [] ∷ ((4, 40) ∷ (7, 70) ∷ []) ∷ [] ∷ []

adding_test :
    (add_or_update_mapping numbers 4 40 empty_table >>= add_or_update_mapping numbers 7 70)
    ≡ some two_keys
unfolding add_or_update_mapping
adding_test = refl

the_table :
    (o : Option (Table ℕ ℕ)) (t : Table ℕ ℕ)
    → (t' : Table ℕ ℕ) × (o ≡ some t') × IsValid numbers t'
    → o ≡ some t
    → IsValid numbers t
the_table o t (t', e, v) q = subst (IsValid numbers) (some-injective t' t (sym e ∙ q)) v

two_keys-IsValid : IsValid numbers two_keys
unfolding add_or_update_mapping
two_keys-IsValid =
    let first =
      the_table (add_or_update_mapping numbers 4 40 empty_table) ([] ∷ ((4, 40) ∷ []) ∷ [] ∷ [])
        (operations-IsValid numbers 3 4 40 empty_table (omega arith) empty_table-IsValid).1 refl in
    the_table _ two_keys (operations-IsValid numbers 3 7 70 _ (omega arith) first).1 refl

value_for-add_or_update_mapping_example :
    (add_or_update_mapping numbers 7 71 two_keys >>= value_for numbers 4 0)
    ≡ value_for numbers 4 0 two_keys
value_for-add_or_update_mapping_example =
    value_for-add_or_update_mapping numbers 7 4 71 0 two_keys (omega arith)

value_for-remove_mapping_example :
    (remove_mapping numbers 7 two_keys >>= value_for numbers 7 5) ≡ some 5
value_for-remove_mapping_example = value_for-remove_mapping numbers 7 7 5 two_keys two_keys-IsValid

operations-IsValid_example :
    IsValid numbers (new_table {V = ℕ} 3)
    × ((t : Table ℕ ℕ) × (add_or_update_mapping numbers 1 10 two_keys ≡ some t) × IsValid numbers t)
    × ((t : Table ℕ ℕ) × (remove_mapping numbers 1 two_keys ≡ some t) × IsValid numbers t)
operations-IsValid_example =
    operations-IsValid numbers 3 1 10 two_keys (omega arith) two_keys-IsValid

value_for-get_map_example :
    value_for numbers 7 0 two_keys ≡ some (value_or (get_map numbers two_keys 7) 0)
value_for-get_map_example = value_for-get_map numbers 7 0 two_keys two_keys-IsValid
