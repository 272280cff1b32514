-- ===== src/RowGroupWorker/ShuffledExample.antt =====
-- The partitions of a row group of four rows that is shuffled, with a seed and without one.
use mathlib.Core.List.{Perm, perm_middle}
use mathlib.Core.List.Perm
use petastorm.Prelude.{
  ◌<◌, length, ℕ, zero, suc, ◌≡◌, refl, true, none, some, List, [], ◌∷◌, map, concat, ok, arith,
}
use petastorm.NGram.{range_from}
use petastorm.RowGroupWorker.{selected_dataframe, partition_indexes, pick}
use petastorm.RowGroupWorker.Rows.{NullableRow}
use petastorm.RowGroupWorker.Loading.{Worker, data_frame, read_with_shuffle_row_drop}
use petastorm.RowGroupWorker.RowDrop.{row_drop_partitions}
use petastorm.RowGroupWorker.Examples.{exact}

abbrev id : ℕ → NullableRow ℕ
id n = ("id", some n) ∷ []

abbrev four_rows : List (NullableRow ℕ)
four_rows = id 1 ∷ id 2 ∷ id 3 ∷ id 4 ∷ []

-- The third row before the others.
abbrev third_first : List (NullableRow ℕ) → List (NullableRow ℕ)
third_first (a ∷ b ∷ c ∷ rows) = c ∷ a ∷ b ∷ rows
third_first rows = rows

third_first-Perm : (rows : List (NullableRow ℕ)) → Perm (third_first rows) rows
third_first-Perm [] = Perm.refl _
third_first-Perm (a ∷ []) = Perm.refl _
third_first-Perm (a ∷ b ∷ []) = Perm.refl _
third_first-Perm (a ∷ b ∷ c ∷ rows) = Perm.symm (perm_middle (a ∷ b ∷ []) rows)

abbrev shuffled_by : (ℕ → List (NullableRow ℕ) → List (NullableRow ℕ)) → Worker ℕ
shuffled_by sample = record {
  schema = [];
  partition_names = [];
  ngram_length = none;
  transform_spec = none;
  shuffle_rows = true;
  floor_quotient = exact.floor_quotient;
  read_columns = λ names. four_rows;
  sample = sample;
}

-- With a seed each call draws the same order.
abbrev seeded : Worker ℕ
seeded = shuffled_by (λ n. third_first)

abbrev draws : ℕ → ℕ
draws p = p

some_rows : 0 < length (data_frame seeded (draws 0) ("id" ∷ []))
unfolding data_frame
some_rows = omega arith

row_drop_partitions_example :
    (outs : List (List (NullableRow ℕ))) × (map
        (λ p. read_with_shuffle_row_drop seeded (draws p) ("id" ∷ []) (p, 2))
        (range_from 0 2)
      ≡ map ok outs)
    × (concat outs ≡ data_frame seeded (draws 0) ("id" ∷ []))
    × Perm (concat outs) (seeded.read_columns ("id" ∷ []))
row_drop_partitions_example =
    row_drop_partitions exact seeded ("id" ∷ []) draws 2 refl refl (λ e i j rows. refl)
      (λ i. third_first-Perm) some_rows (omega arith)

-- Without a seed the calls may draw different orders.
abbrev own_order : ℕ → List (NullableRow ℕ) → List (NullableRow ℕ)
own_order zero rows = rows
own_order (suc n) rows = third_first rows

-- The reads of the two partitions then give the second row twice and the third one never.
lost_and_repeated :
    map
      (λ p. read_with_shuffle_row_drop (shuffled_by own_order) (draws p) ("id" ∷ []) (p, 2))
      (range_from 0 2)
    ≡ ok (id 1 ∷ id 2 ∷ []) ∷ ok (id 2 ∷ id 4 ∷ []) ∷ []
unfolding read_with_shuffle_row_drop data_frame selected_dataframe partition_indexes pick range_from
lost_and_repeated = refl
