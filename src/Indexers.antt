-- ===== src/Indexers.antt =====
-- petastorm/etl/rowgroup_indexers.py: `SingleFieldIndexer` and `FieldNotNullIndexer`. The values of a
-- field have an equality test `same`; a column is the list of the field's values in the rows.
pub mod Contents
mod Examples
use Prim.Native.String.{String}
use petastorm.Prelude.{
  ℕ, Bool, true, false, not, List, [], ◌∷◌, ◌==◌, if◌then◌else◌, Result, ok, raise, raise_if,
  value_error, ◌>>=◌, ◌>>◌,
}
use petastorm.NGram.Keys.{same_name}
use petastorm.Selectors.{mem, union}

-- The value of the field in a row: None, an array or a single value.
pub data Field (K : Type 0) : Type 0 where
  missing : Field K
  array : List K → Field K
  value : K → Field K

pub record SingleFieldIndexer (K : Type 0) : Type 0 where
  pub column_name : String
  pub index_data : List (K × List ℕ)

pub record FieldNotNullIndexer : Type 0 where
  pub column_name : String
  pub index_data : List ℕ

-- `set.add`
unfoldable pub insert : ℕ → List ℕ → List ℕ
insert i xs = if mem i xs then xs else i ∷ xs

module _ {K : Type 0} (same : K → K → Bool) where
  -- `_index_data[value_key]`, without the empty entry that the defaultdict then has.
  unfoldable pub get_row_group_indexes : List (K × List ℕ) → K → List ℕ
  get_row_group_indexes [] v = []
  get_row_group_indexes (e ∷ es) v = if same v e.0 then e.1 else get_row_group_indexes es v

  -- `_index_data[v].update(pieces)`
  unfoldable pub update : List (K × List ℕ) → K → List ℕ → List (K × List ℕ)
  update [] v pieces = (v, pieces) ∷ []
  update (e ∷ es) v pieces =
      let rest = update es v pieces in if same v e.0 then (e.0, union e.1 pieces) ∷ es else e ∷ rest

  -- `_index_data[v].add(piece_index)`
  unfoldable pub add_to : List (K × List ℕ) → K → ℕ → List (K × List ℕ)
  unfolding insert
  add_to [] v piece = (v, piece ∷ []) ∷ []
  add_to (e ∷ es) v piece =
      let rest = add_to es v piece in if same v e.0 then (e.0, insert piece e.1) ∷ es else e ∷ rest

  unfoldable pub add_values : List (K × List ℕ) → List K → ℕ → List (K × List ℕ)
  add_values index_data [] piece = index_data
  add_values index_data (v ∷ vs) piece = add_values (add_to index_data v piece) vs piece

  unfoldable pub add_fields : List (K × List ℕ) → List (Field K) → ℕ → List (K × List ℕ)
  add_fields index_data [] piece = index_data
  add_fields index_data (Field.missing ∷ fs) piece = add_fields index_data fs piece
  add_fields index_data (Field.array vs ∷ fs) piece =
      add_fields (add_values index_data vs piece) fs piece
  add_fields index_data (Field.value v ∷ fs) piece = add_fields (add_to index_data v piece) fs piece

  -- `build_index`
  unfoldable pub build_index :
      SingleFieldIndexer K → List (Field K) → ℕ → Result (SingleFieldIndexer K)
  build_index x [] piece = raise value_error
  build_index x (f ∷ fs) piece =
      ok (record x { index_data = add_fields x.index_data (f ∷ fs) piece })

  unfoldable pub update_all : List (K × List ℕ) → List (K × List ℕ) → List (K × List ℕ)
  update_all index_data [] = index_data
  update_all index_data (e ∷ es) = update_all (update index_data e.0 e.1) es

  -- `__add__`, for two indexers of this class
  unfoldable pub merge : SingleFieldIndexer K → SingleFieldIndexer K → Result (SingleFieldIndexer K)
  merge x other = do
    raise_if (not (same_name x.column_name other.column_name)) value_error
    ok (record x { index_data = update_all x.index_data other.index_data })

-- Whether some field is not None: the loop with its `break`.
unfoldable pub some_field : {K : Type 0} → List (Field K) → Bool
some_field [] = false
some_field (Field.missing ∷ fs) = some_field fs
some_field (Field.array vs ∷ fs) = true
some_field (Field.value v ∷ fs) = true

unfoldable pub build_not_null :
    {K : Type 0} → FieldNotNullIndexer → List (Field K) → ℕ → Result FieldNotNullIndexer
unfolding some_field insert
build_not_null x [] piece = raise value_error
build_not_null x (f ∷ fs) piece =
    ok (if some_field (f ∷ fs) then record x { index_data = insert piece x.index_data } else x)

unfoldable pub merge_not_null :
    FieldNotNullIndexer → FieldNotNullIndexer → Result FieldNotNullIndexer
merge_not_null x other = do
  raise_if (not (same_name x.column_name other.column_name)) value_error
  ok (record x { index_data = union x.index_data other.index_data })
