-- ===== src/RowGroupWorker/Loading.antt =====
-- `PyDictReaderWorker`: loading the rows of a row group, with or without a predicate.
use Prim.Native.String.{String}
use petastorm.Prelude.{
  ℕ, Bool, true, false, not, ◌||◌, Option, none, some, List, [], ◌∷◌, map, ◌==◌, if◌then◌else◌,
  Result, ok, raise, raise_if, runtime_error, value_error, index_error, ◌>>=◌, ◌>>◌,
}
use petastorm.Tensors.{each}
use petastorm.DataLoader.{Row}
use petastorm.RowGroupWorker.{selected_dataframe}
use petastorm.RowGroupWorker.Rows.{
  NullableRow, TransformSpec, merge_two_dicts, select_cols, apply_transform_spec, decode_row,
  without,
}

pub record Predicate (V : Type 0) : Type 0 where
  pub get_fields : List String
  pub do_include : NullableRow V → Result Bool

-- The worker with its row group. `read_columns` is pyarrow's reading of the columns, and `sample n` is
-- the order that pandas draws in the `n`th call.
pub record Worker (V : Type 0) : Type 0 where
  pub schema : Row (V → Result V)
  pub partition_names : List String
  pub ngram_length : Option ℕ
  pub transform_spec : Option (TransformSpec V)
  pub shuffle_rows : Bool
  pub floor_quotient : ℕ → ℕ → ℕ → ℕ
  pub read_columns : List String → List (NullableRow V)
  pub sample : ℕ → List (NullableRow V) → List (NullableRow V)

-- `[row for i, row in enumerate(rows) if mask[i]]`
unfoldable pub filter_mask : {X : Type 0} → List Bool → List X → Result (List X)
filter_mask mask [] = ok []
filter_mask [] (x ∷ xs) = raise index_error
filter_mask (b ∷ mask) (x ∷ xs) = do rest ← filter_mask mask xs; ok (if b then x ∷ rest else rest)

unfoldable pub any : List Bool → Bool
any [] = false
any (b ∷ bs) = b || any bs

unfoldable pub is_empty : {X : Type 0} → List X → Bool
is_empty [] = true
is_empty (x ∷ xs) = false

-- `zip(a, b)`, merged
unfoldable pub merge_rows : {V : Type 0} → List (Row V) → List (Row V) → List (Row V)
merge_rows (a ∷ as_) (b ∷ bs) = merge_two_dicts a b ∷ merge_rows as_ bs
merge_rows _ _ = []

module _ {V : Type 0} (w : Worker V) where
  unfoldable pub data_frame : ℕ → List String → List (NullableRow V)
  data_frame draw column_names =
      if w.shuffle_rows
      then w.sample draw (w.read_columns column_names)
      else w.read_columns column_names

  unfoldable pub read_with_shuffle_row_drop :
      ℕ → List String → ℕ × ℕ → Result (List (NullableRow V))
  read_with_shuffle_row_drop draw column_names partition =
      selected_dataframe w.floor_quotient w.ngram_length (data_frame draw column_names) partition.0
        partition.1

  -- `if self._transform_spec: ...`
  unfoldable pub transform : List (NullableRow V) → Result (List (NullableRow V))
  transform rows = elim w.transform_spec [
    | none ↦ ok rows
    | some spec ↦ apply_transform_spec rows spec
  ]

  abbrev pub all_schema_names : List String
  all_schema_names = map (λ e. e.0) w.schema

  unfoldable pub load_rows : ℕ × ℕ → Result (List (NullableRow V))
  load_rows partition = do
    rows ← read_with_shuffle_row_drop 0 (without all_schema_names w.partition_names) partition
    decoded ← each (λ row. decode_row row w.schema) rows
    transform decoded

  unfoldable pub decode_selected : List String → NullableRow V → Result (NullableRow V)
  decode_selected names row = do selected ← select_cols row names; decode_row selected w.schema

  -- The columns that the predicate does not need, for the rows that match it, beside those that it
  -- needs.
  unfoldable pub with_other_columns :
      List String → ℕ × ℕ → List Bool → List (NullableRow V) → Result (List (NullableRow V))
  with_other_columns [] partition mask filtered = ok filtered
  with_other_columns (name ∷ names) partition mask filtered = do
    other_rows ← read_with_shuffle_row_drop 1 (name ∷ names) partition
    filtered_other ← filter_mask mask other_rows
    decoded ← each (λ row. decode_row row w.schema) filtered_other
    ok (merge_rows decoded filtered)

  abbrev pub other_columns : Predicate V → List String
  other_columns predicate =
      without (without all_schema_names predicate.get_fields) w.partition_names

  unfoldable pub load_rows_with_predicate : Predicate V → ℕ × ℕ → Result (List (NullableRow V))
  unfolding is_empty
  load_rows_with_predicate predicate partition = do
    raise_if (is_empty predicate.get_fields) value_error
    raise_if (not (is_empty (without predicate.get_fields all_schema_names))) value_error
    predicate_rows ← read_with_shuffle_row_drop 0 predicate.get_fields partition
    decoded ← each (decode_selected predicate.get_fields) predicate_rows
    mask ← each predicate.do_include decoded
    if any mask
        then (do
          filtered ← filter_mask mask decoded
          result ← with_other_columns (other_columns predicate) partition mask filtered
          transform result)
        else ok []

  -- `process` from the opened row group on: the rows that are published, if any. `cache_get` is
  -- `get` of the local cache for this row group, where the cache is no NullCache, and `form_ngram`
  -- that of the NGram.
  unfoldable pub process :
      {X : Type 0}
      → Option (Result (List (NullableRow V)) → Result (List (NullableRow V)))
      → (List (NullableRow V) → Result (List X))
      → Option (Predicate V)
      → ℕ × ℕ
      → Result (Option (List X))
  unfolding is_empty
  process local_cache form_ngram worker_predicate partition = do
    raise_if
        (elim local_cache [
          | none ↦ false
          | some c ↦ elim worker_predicate [ none ↦ false | some p ↦ true ]
        ])
        runtime_error
    raise_if (elim local_cache [ none ↦ false | some c ↦ not (partition.1 == 1) ]) runtime_error
    all_cols ← elim worker_predicate [
      | some predicate ↦ load_rows_with_predicate predicate partition
      | none ↦ elim local_cache [
        | none ↦ load_rows partition
        | some cache_get ↦ cache_get (load_rows partition)
      ]
    ]
    published ← form_ngram all_cols
    ok (if is_empty published then none else some published)
