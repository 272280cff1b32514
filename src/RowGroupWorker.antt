-- ===== src/RowGroupWorker.antt =====
-- petastorm/py_dict_reader_worker.py: the worker that loads the rows of a row group as dictionaries. A
-- row group is the list of its rows; reading it is pyarrow's work and a parameter.
pub mod Stretches
pub mod RowDrop
pub mod Results
pub mod Rows
pub mod Loading
pub mod Pushdown
mod Examples
mod PredicateExample
mod ShuffledExample
use Prim.Native.String.{String}
use petastorm.Prelude.{
  ℕ, zero, suc, ◌+◌, ◌-◌, ◌*◌, min, Bool, true, false, Option, none, some, List, [], ◌∷◌, ◌++◌, map,
  length, take, leb, ◌==◌, if◌then◌else◌, Result, ok, raise, zero_division_error, ◌>>=◌,
}
use petastorm.NGram.{range_from}

-- The rows of a row group that belong to a row drop partition.
module _ {R : Type 0} where
  -- `data_frame.loc[partition_indexes == this_partition]`
  unfoldable pub pick : ℕ → List ℕ → List R → List R
  pick p [] rows = []
  pick p (i ∷ is) [] = []
  pick p (i ∷ is) (r ∷ rows) = let rest = pick p is rows in if i == p then r ∷ rest else rest

-- The first `n` of the indexes that belong to later partitions, set to this one.
unfoldable pub mark_next : ℕ → ℕ → List ℕ → List ℕ
mark_next p n [] = []
mark_next p zero (i ∷ is) = i ∷ is
mark_next p (suc n) (i ∷ is) =
    let marked = mark_next p n is in
    let rest = mark_next p (suc n) is in if leb (p + 1) i then p ∷ marked else i ∷ rest

-- `floor_quotient i n m` is numpy's floor of `i / (n / m)`, in floating point numbers.
module _ (floor_quotient : ℕ → ℕ → ℕ → ℕ) where
  -- Python's division of a float by 0 raises.
  unfoldable pub partition_indexes : ℕ → ℕ → Result (List ℕ)
  partition_indexes num_rows num_partitions =
      let m = min num_rows num_partitions in
      if m == 0
      then raise zero_division_error
      else ok (map (λ i. floor_quotient i num_rows m) (range_from 0 num_rows))

  -- `_read_with_shuffle_row_drop` from the data frame on, whose rows are in their final order.
  -- `ngram_length` is the length of the NGram if there is one.
  unfoldable pub selected_dataframe : {R : Type 0} → Option ℕ → List R → ℕ → ℕ → Result (List R)
  selected_dataframe none data_frame this_partition num_partitions = do
    indexes ← partition_indexes (length data_frame) num_partitions
    ok (pick this_partition indexes data_frame)
  selected_dataframe (some ngram_length) data_frame this_partition num_partitions = do
    indexes ← partition_indexes (length data_frame) num_partitions
    ok (pick this_partition (mark_next this_partition (ngram_length - 1) indexes) data_frame)
