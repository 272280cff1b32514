-- ===== src/RowGroupWorker/Examples.antt =====
-- The partitions of a row group of five rows, with the quotients computed exactly.
use petastorm.Prelude.{
  stop_iteration, raise, length, ℕ, ◌+◌, ◌-◌, ◌*◌, ◌/◌, ◌≤◌, ◌<◌, ◌≡◌, refl, none, some, List, [],
  ◌∷◌, ◌++◌, map, take, concat, ok, arith,
}
use petastorm.NGram.{range_from}
use petastorm.RowGroupWorker.{selected_dataframe, partition_indexes, pick, mark_next}
use petastorm.RowGroupWorker.Results.{ResultsQueueReader, read_rows, read_next, read_rows-all}
use petastorm.RowGroupWorker.RowDrop.{FloorQuotient, row_drop_overlap}

pub exact_monotone : (i j n m : ℕ) → i ≤ j → i * m / n ≤ j * m / n
exact_monotone i j n m h = grind arith

pub exact_below : (i n m : ℕ) → i < n → 0 < m → m ≤ n → i * m / n < m
exact_below i n m h pos e = grind arith

abbrev pub exact : FloorQuotient
exact = record {
  floor_quotient = λ i n m. i * m / n;
  monotone = exact_monotone;
  below = exact_below;
}

abbrev five_rows : List ℕ
five_rows = 1 ∷ 2 ∷ 3 ∷ 4 ∷ 5 ∷ []

first_half : selected_dataframe exact.floor_quotient none five_rows 0 2 ≡ ok (1 ∷ 2 ∷ 3 ∷ [])
unfolding selected_dataframe partition_indexes pick range_from
first_half = refl

-- With an NGram of three rows.
overlapping_half : selected_dataframe exact.floor_quotient (some 3) five_rows 0 2 ≡ ok five_rows
unfolding selected_dataframe partition_indexes pick mark_next range_from
overlapping_half = refl

row_drop_overlap_example :
    (before out after : List ℕ) × (five_rows ≡ before ++ (out ++ after))
    × (selected_dataframe exact.floor_quotient none five_rows 0 2 ≡ ok out)
    × (selected_dataframe exact.floor_quotient (some 3) five_rows 0 2
        ≡ ok (out ++ take (3 - 1) after))
row_drop_overlap_example = row_drop_overlap exact five_rows 0 2 3 (omega arith) (omega arith)

abbrev two_results : List (List ℕ)
two_results = (1 ∷ 2 ∷ []) ∷ (3 ∷ []) ∷ []

read_rows-all_example :
    (s : ResultsQueueReader ℕ ℕ) × (read_rows
        (λ x. x + 10)
        (length (concat two_results))
        (record { pool = two_results; result_buffer = [] })
      ≡ ok (map (λ x. x + 10) (concat two_results), s))
    × (read_next (λ x. x + 10) s ≡ raise stop_iteration)
read_rows-all_example = read_rows-all (λ x. x + 10) two_results (omega arith, (omega arith, tt))
