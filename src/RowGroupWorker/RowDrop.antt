-- ===== src/RowGroupWorker/RowDrop.antt =====
-- The row drop partitions of a row group.
use petastorm.Prelude.{
  inr, inl, Bool-cases, true, length-map, ℕ, zero, suc, ◌+◌, ◌-◌, ◌≤◌, ◌<◌, ◌≡◌, refl, ◌∙◌, min,
  false, none, some, List, [], ◌∷◌, ◌++◌, map, length, take, concat, ◌==◌, ok, arith,
}
use mathlib.Core.List.{Perm}
use mathlib.Core.List.Perm
use Prim.Native.String.{String}
use petastorm.NGram.{range_from}
use petastorm.Tensors.Permuted.{length-range_from}
use petastorm.RowGroupWorker.{pick, partition_indexes, selected_dataframe}
use petastorm.RowGroupWorker.Rows.{NullableRow}
use petastorm.RowGroupWorker.Loading.{Worker, data_frame, read_with_shuffle_row_drop}
use petastorm.RowGroupWorker.Stretches.{Ascending, AllUnder, parts, concat-parts, stretch}

-- What is used of the floating point computation: it never gets smaller along the rows, and it stays
-- below the number of partitions.
pub record FloorQuotient : Type 0 where
  pub floor_quotient : ℕ → ℕ → ℕ → ℕ
  pub monotone : (i j n m : ℕ) → i ≤ j → floor_quotient i n m ≤ floor_quotient j n m
  pub below : (i n m : ℕ) → i < n → 0 < m → m ≤ n → floor_quotient i n m < m

module _ (fq : FloorQuotient) where
  index-Ascending :
      (n m start c : ℕ) (low : ℕ)
      → low ≤ fq.floor_quotient start n m
      → Ascending low (map (λ i. fq.floor_quotient i n m) (range_from start c))
  unfolding range_from
  index-Ascending n m start zero low h = tt
  index-Ascending n m start (suc c) low h = (
    h,
    index-Ascending n m (start + 1) c (fq.floor_quotient start n m)
        (fq.monotone start (start + 1) n m (omega arith)),
  )

  index-AllUnder :
      (n m start c : ℕ)
      → start + c ≤ n
      → 0 < m
      → m ≤ n
      → AllUnder m (map (λ i. fq.floor_quotient i n m) (range_from start c))
  unfolding range_from
  index-AllUnder n m start zero h pos e = tt
  index-AllUnder n m start (suc c) h pos e = (
    fq.below start n m (omega (arith, h)) pos e,
    index-AllUnder n m (start + 1) c (omega (arith, h)) pos e,
  )

  AllUnder-le : (a b : ℕ) (is : List ℕ) → a ≤ b → AllUnder a is → AllUnder b is
  AllUnder-le a b [] h u = tt
  AllUnder-le a b (i ∷ is) h (e, u) = (omega (arith, e, h), AllUnder-le a b is h u)

  -- The indexes of a row group that is not empty.
  indexes :
      (n k : ℕ)
      → 0 < n
      → 0 < k
      → (is : List ℕ) × (partition_indexes fq.floor_quotient n k ≡ ok is)
        × Ascending 0 is
        × AllUnder k is
        × (length is ≡ n)
  unfolding partition_indexes
  indexes n k rows parts' =
      let m = min n k in
      let some_parts : (m == 0) ≡ false = ground (arith, rows, parts') in
      (
        map (λ i. fq.floor_quotient i n m) (range_from 0 n),
        rw some_parts refl,
        index-Ascending n m 0 n 0 (omega arith),
        AllUnder-le m k _ (omega arith)
            (index-AllUnder n m 0 n (omega arith) (omega (arith, rows, parts')) (omega arith)),
        length-map _ (range_from 0 n) ∙ length-range_from 0 n,
      )

zero_add : (k : ℕ) → 0 + k ≡ k
zero_add k = omega arith

module _ {R : Type 0} (fq : FloorQuotient) where
  read_parts :
      (rows : List R) (k : ℕ) (is ps : List ℕ)
      → partition_indexes fq.floor_quotient (length rows) k ≡ ok is
      → map (λ p. selected_dataframe fq.floor_quotient none rows p k) ps
        ≡ map ok (map (λ p. pick p is rows) ps)
  unfolding selected_dataframe
  read_parts rows k is [] e = refl
  read_parts rows k is (p ∷ ps) e = rw (e, read_parts rows k is ps e)

  -- Taking the partitions of one data frame, one after the other, succeeds and gives all its rows.
  partitions_of_frame :
      (rows : List R) (num_partitions : ℕ)
      → 0 < length rows
      → 0 < num_partitions
      → (outs : List (List R)) × (map
            (λ p. selected_dataframe fq.floor_quotient none rows p num_partitions)
            (range_from 0 num_partitions)
          ≡ map ok outs)
        × (concat outs ≡ rows)
  partitions_of_frame rows k some_rows some_parts =
      let (is, made, up, under, n) = indexes fq (length rows) k some_rows some_parts in
      (
        parts 0 k is rows,
        read_parts rows k is (range_from 0 k) made,
        concat-parts 0 k is rows up (rw (zero_add k) under) n,
      )

  -- For a row group with rows, any number of partitions that is not 0, and any partition: the rows of
  -- the partition are a stretch of the row group, and with an NGram as many rows as it is longer than
  -- one row are added, which are those right behind the stretch, as far as there are any.
  pub row_drop_overlap :
      (rows : List R) (p num_partitions ngram_length : ℕ)
      → 0 < length rows
      → 0 < num_partitions
      → (before out after : List R) × (rows ≡ before ++ (out ++ after))
        × (selected_dataframe fq.floor_quotient none rows p num_partitions ≡ ok out)
        × (selected_dataframe fq.floor_quotient (some ngram_length) rows p num_partitions
            ≡ ok (out ++ take (ngram_length - 1) after))
  unfolding selected_dataframe
  row_drop_overlap rows p k len some_rows some_parts =
      let (is, made, up, under, n) = indexes fq (length rows) k some_rows some_parts in
      let (before, after, whole, marked) = stretch p (len - 1) 0 is rows up n in
      (before, pick p is rows, after, whole, rw made refl, rw (made, marked) refl)

module _ {V : Type 0} (fq : FloorQuotient) (w : Worker V) (column_names : List String) where
  same_frame :
      (w.shuffle_rows ≡ true
        → (i j : ℕ) (rows : List (NullableRow V)) → w.sample i rows ≡ w.sample j rows)
      → (i j : ℕ) → data_frame w i column_names ≡ data_frame w j column_names
  unfolding data_frame
  same_frame seeded i j = elim (Bool-cases w.shuffle_rows) [
    | inl e ↦ rw e (seeded e i j (w.read_columns column_names))
    | inr e ↦ rw e refl
  ]

  data_frame-Perm :
      ((i : ℕ) (rows : List (NullableRow V)) → Perm (w.sample i rows) rows)
      → (i : ℕ) → Perm (data_frame w i column_names) (w.read_columns column_names)
  unfolding data_frame
  data_frame-Perm permutes i = elim (Bool-cases w.shuffle_rows) [
    | inl e ↦ rw e (permutes i (w.read_columns column_names))
    | inr e ↦ rw e (Perm.refl _)
  ]

  reads_of_frame :
      (draws : ℕ → ℕ) (k : ℕ)
      → ((p : ℕ) → data_frame w (draws p) column_names ≡ data_frame w (draws 0) column_names)
      → w.floor_quotient ≡ fq.floor_quotient
      → w.ngram_length ≡ none
      → (ps : List ℕ)
      → map (λ p. read_with_shuffle_row_drop w (draws p) column_names (p, k)) ps
        ≡ map
            (λ p.
              selected_dataframe fq.floor_quotient none (data_frame w (draws 0) column_names) p k)
            ps
  unfolding read_with_shuffle_row_drop
  reads_of_frame draws k same quotients no_ngram [] = refl
  reads_of_frame draws k same quotients no_ngram (p ∷ ps) =
      rw (same p, quotients, no_ngram, reads_of_frame draws k same quotients no_ngram ps) refl

  -- For a worker without an NGram, a row group with rows, and any number of partitions that is not 0,
  -- where each partition is read by a call of its own: if every call that shuffles puts the rows into
  -- the same order, as with a seed, or if there is no shuffling, and sampling permutes the rows, and the
  -- floating point quotient is as in `FloorQuotient`: reading the partitions one after the other
  -- succeeds and gives the rows of the row group, each one once, in the order of that call.
  pub row_drop_partitions :
      (draws : ℕ → ℕ) (num_partitions : ℕ)
      → w.floor_quotient ≡ fq.floor_quotient
      → w.ngram_length ≡ none
      → (w.shuffle_rows ≡ true
          → (i j : ℕ) (rows : List (NullableRow V)) → w.sample i rows ≡ w.sample j rows)
      → ((i : ℕ) (rows : List (NullableRow V)) → Perm (w.sample i rows) rows)
      → 0 < length (data_frame w (draws 0) column_names)
      → 0 < num_partitions
      → (outs : List (List (NullableRow V))) × (map
            (λ p. read_with_shuffle_row_drop w (draws p) column_names (p, num_partitions))
            (range_from 0 num_partitions)
          ≡ map ok outs)
        × (concat outs ≡ data_frame w (draws 0) column_names)
        × Perm (concat outs) (w.read_columns column_names)
  row_drop_partitions draws k quotients no_ngram seeded permutes some_rows some_parts =
      let (outs, taken, whole) =
        partitions_of_frame fq (data_frame w (draws 0) column_names) k some_rows some_parts in
      let read =
        reads_of_frame draws k (λ p. same_frame seeded (draws p) (draws 0)) quotients no_ngram
          (range_from 0 k) in
      (outs, read ∙ taken, whole, rw whole (data_frame-Perm permutes (draws 0)))
