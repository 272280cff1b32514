-- ===== src/Indexers/Examples.antt =====
-- An index of a column with a single value, an array and a None.
use petastorm.Prelude.{ℕ, ◌≡◌, refl, Bool, ◌&&◌, ◌||◌, List, [], ◌∷◌, ◌==◌, ==_iff, ok}
use petastorm.Selectors.{mem}
use petastorm.Indexers.{
  Field, SingleFieldIndexer, build_index, add_fields, add_values, add_to, insert,
  get_row_group_indexes,
}
use petastorm.Indexers.Contents.{in_column, mem-build_index}

abbrev same_number : ℕ → ℕ → Bool
same_number a b = a == b

abbrev sizes : SingleFieldIndexer ℕ
sizes = record { column_name = "size"; index_data = (5, 0 ∷ []) ∷ [] }

abbrev column : List (Field ℕ)
column = Field.array (5 ∷ 6 ∷ []) ∷ Field.missing ∷ Field.value 6 ∷ []

sizes_built :
    build_index same_number sizes column 3
    ≡ ok (record sizes { index_data = (5, 3 ∷ 0 ∷ []) ∷ (6, 3 ∷ []) ∷ [] })
unfolding build_index add_fields add_values add_to insert mem
sizes_built = refl

mem-build_index_example :
    (y : SingleFieldIndexer ℕ) × (build_index same_number sizes column 3 ≡ ok y)
    × (mem 3 (get_row_group_indexes same_number y.index_data 6)
        ≡ mem 3 (get_row_group_indexes same_number sizes.index_data 6)
          || ((3 == 3) && in_column same_number ==_iff 6 column))
mem-build_index_example =
    mem-build_index same_number ==_iff 3 3 6 (Field.array (5 ∷ 6 ∷ []))
      (Field.missing ∷ Field.value 6 ∷ []) sizes
