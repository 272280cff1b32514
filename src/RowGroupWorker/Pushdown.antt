-- ===== src/RowGroupWorker/Pushdown.antt =====
-- Loading with a predicate: reading the predicate's columns first gives what filtering the rows gives.
use Prim.Native.String.{String}
use petastorm.Prelude.{
  ◌-◌, ℕ, ◌<◌, ◌≡◌, refl, ap, Bool, true, false, Option, none, some, List, [], ◌∷◌, map, length,
  length-map, ◌==◌, if◌then◌else◌, Result, Result-cases, Bool-cases, ok, arith, inl, inr, ◌>>=◌,
}
use petastorm.Tensors.{each}
use petastorm.DataLoader.{Row}
use petastorm.RowGroupWorker.{pick, mark_next, partition_indexes, selected_dataframe}
use petastorm.RowGroupWorker.Rows.{
  NullableRow, TransformSpec, merge_two_dicts, apply_transform_spec, remove_fields, decode_row,
  without,
}
use petastorm.RowGroupWorker.Loading.{
  Predicate, Worker, filter_mask, any, is_empty, merge_rows, data_frame, read_with_shuffle_row_drop,
  transform, decode_selected, with_other_columns, other_columns, load_rows_with_predicate,
  all_schema_names,
}

-- The rows that match.
abbrev pub matching : {R : Type 0} → (R → Bool) → List R → List R
matching keep [] = []
matching keep (r ∷ rows) = if keep r then r ∷ matching keep rows else matching keep rows

module _ {R X : Type 0} where
  pick-map :
      (f : R → X) (p : ℕ) (is : List ℕ) (rows : List R)
      → pick p is (map f rows) ≡ map f (pick p is rows)
  unfolding pick
  pick-map f p [] rows = refl
  pick-map f p (i ∷ is) [] = refl
  pick-map f p (i ∷ is) (r ∷ rows) = elim (Bool-cases (i == p)) [
    | inl e ↦ rw (e, pick-map f p is rows) refl
    | inr e ↦ rw (e, pick-map f p is rows) refl
  ]

  -- The partition does not depend on which columns are read.
  selected_dataframe-map :
      (fq : ℕ → ℕ → ℕ → ℕ) (ngram : Option ℕ) (f : R → X) (rows sel : List R) (p k : ℕ)
      → selected_dataframe fq ngram rows p k ≡ ok sel
      → selected_dataframe fq ngram (map f rows) p k ≡ ok (map f sel)
  unfolding selected_dataframe
  selected_dataframe-map fq none f rows sel p k e =
      elim (Result-cases (partition_indexes fq (length rows) k)) [
        | inl (is, made) ↦
            let chosen : pick p is rows ≡ sel = ground (arith, e, made) in
            rw (length-map f rows, made, pick-map f p is rows, chosen) refl
        | inr (er, failed) ↦ absurd (ground (arith, e, failed))
      ]
  selected_dataframe-map fq (some len) f rows sel p k e =
      elim (Result-cases (partition_indexes fq (length rows) k)) [
        | inl (is, made) ↦
            let chosen : pick p (mark_next p (len - 1) is) rows ≡ sel = ground (arith, e, made) in
            rw (length-map f rows, made, pick-map f p (mark_next p (len - 1) is) rows, chosen) refl
        | inr (er, failed) ↦ absurd (ground (arith, e, failed))
      ]

  -- What succeeds for every row.
  abbrev pub EachGives : (R → Result X) → (R → X) → List R → Type 0
  EachGives h d [] = Unit
  EachGives h d (r ∷ rows) = (h r ≡ ok (d r)) × EachGives h d rows

  filter_mask-map :
      (keep : R → Bool) (d : R → X) (rows : List R)
      → filter_mask (map keep rows) (map d rows) ≡ ok (map d (matching keep rows))
  unfolding filter_mask
  filter_mask-map keep d [] = refl
  filter_mask-map keep d (r ∷ rows) = elim (Bool-cases (keep r)) [
    | inl e ↦ rw (e, filter_mask-map keep d rows) refl
    | inr e ↦ rw (e, filter_mask-map keep d rows) refl
  ]

  EachGives-matching :
      (h : R → Result X) (d : R → X) (keep : R → Bool) (rows : List R)
      → EachGives h d rows
      → EachGives h d (matching keep rows)
  EachGives-matching h d keep [] g = tt
  EachGives-matching h d keep (r ∷ rows) (e, g) = elim (Bool-cases (keep r)) [
    | inl k ↦ rw k (e, EachGives-matching h d keep rows g)
    | inr k ↦ rw k (EachGives-matching h d keep rows g)
  ]

each-map :
    {R Y X : Type 0} (h : Y → Result X) (f : R → Y) (d : R → X) (rows : List R)
    → EachGives (λ r. h (f r)) d rows
    → each h (map f rows) ≡ ok (map d rows)
unfolding each
each-map h f d [] g = refl
each-map h f d (r ∷ rows) (e, g) = rw (e, each-map h f d rows g) refl

none_kept :
    {R : Type 0} (keep : R → Bool) (rows : List R)
    → any (map keep rows) ≡ false
    → matching keep rows ≡ []
unfolding any
none_kept keep [] e = refl
none_kept keep (r ∷ rows) e = elim (Bool-cases (keep r)) [
  | inl k ↦ absurd (ground (arith, e, k))
  | inr k ↦ rw k (none_kept keep rows (rw k at e))
]

merge_rows-map :
    {R V : Type 0} (a b : R → Row V) (rows : List R)
    → merge_rows (map a rows) (map b rows) ≡ map (λ r. merge_two_dicts (a r) (b r)) rows
unfolding merge_rows
merge_rows-map a b [] = refl
merge_rows-map a b (r ∷ rows) = ap (◌∷◌ (merge_two_dicts (a r) (b r))) (merge_rows-map a b rows)

nothing_removed : (V : Type 0) (fields : List String) → remove_fields {V = V} fields [] ≡ []
unfolding remove_fields
nothing_removed V [] = refl
nothing_removed V (field ∷ fields) = nothing_removed V fields

nothing_applied : {V : Type 0} (spec : TransformSpec V) → apply_transform_spec [] spec ≡ ok []
unfolding apply_transform_spec each
nothing_applied {V} spec =
    elim spec.func
      as (λ f.
        ((elim f [ none ↦ ok [] | some h ↦ each h [] ])
          >>= (λ rows. ok (remove_fields spec.removed_fields rows)))
        ≡ ok []) [
          | none ↦ ap ok (nothing_removed V spec.removed_fields)
          | some h ↦ ap ok (nothing_removed V spec.removed_fields)
        ]

some_fields : {X : Type 0} (xs : List X) → 0 < length xs → is_empty xs ≡ false
unfolding is_empty
some_fields [] h = absurd (omega arith)
some_fields (x ∷ xs) h = refl

no_fields : {X : Type 0} (xs : List X) → xs ≡ [] → is_empty xs ≡ true
unfolding is_empty
no_fields [] h = refl
no_fields (x ∷ xs) h = absurd (ground arith)

nothing_transformed :
    {V : Type 0} (spec : Option (TransformSpec V))
    → (elim spec [ none ↦ ok [] | some s ↦ apply_transform_spec [] s ]) ≡ ok []
nothing_transformed none = refl
nothing_transformed (some s) = nothing_applied s

module _ {V : Type 0} (w : Worker V) (predicate : Predicate V) where
  transform_nothing : transform w [] ≡ ok []
  unfolding transform
  transform_nothing = nothing_transformed w.transform_spec

  -- The rows of the partition, one for each row of the row group, which has the values `raw`.
  module _ {R : Type 0} (f g : R → NullableRow V) (dp other : R → NullableRow V)
      (keep : R → Bool) where
    -- A row that matches, with all its columns.
    abbrev pub full_row : List String → R → NullableRow V
    full_row [] r = dp r
    full_row (name ∷ names) r = merge_two_dicts (other r) (dp r)

    others_of :
        (names : List String) (raw sel : List R) (partition : ℕ × ℕ)
        → data_frame w 1 names ≡ map g raw
        → selected_dataframe w.floor_quotient w.ngram_length raw partition.0 partition.1 ≡ ok sel
        → EachGives (λ r. decode_row (g r) w.schema) other sel
        → with_other_columns w names partition (map keep sel) (map dp (matching keep sel))
          ≡ ok (map (full_row names) (matching keep sel))
    unfolding with_other_columns read_with_shuffle_row_drop
    others_of [] raw sel partition frame part decoded = refl
    others_of (name ∷ names) raw sel partition frame part decoded =
        let rows =
          selected_dataframe-map w.floor_quotient w.ngram_length g raw sel partition.0 partition.1
            part in
        let masked = filter_mask-map keep g sel in
        let done =
          each-map (λ row. decode_row row w.schema) g other (matching keep sel)
            (EachGives-matching (λ r. decode_row (g r) w.schema) other keep sel decoded) in
        rw (frame, rows, masked, done, merge_rows-map other dp (matching keep sel)) refl

    -- For a predicate whose fields are in the schema, where both reads see the rows of the row group in
    -- the same order, where the partition can be read, and where decoding its rows and the predicate
    -- raise nothing: the result is that of the whole rows of the partition that match, transformed.
    pub load_rows_with_predicate-filters :
        (raw sel : List R) (partition : ℕ × ℕ)
        → 0 < length predicate.get_fields
        → without predicate.get_fields (all_schema_names w) ≡ []
        → data_frame w 0 predicate.get_fields ≡ map f raw
        → data_frame w 1 (other_columns w predicate) ≡ map g raw
        → selected_dataframe w.floor_quotient w.ngram_length raw partition.0 partition.1 ≡ ok sel
        → EachGives (λ r. decode_selected w predicate.get_fields (f r)) dp sel
        → EachGives (λ r. decode_row (g r) w.schema) other sel
        → EachGives (λ r. predicate.do_include (dp r)) keep sel
        → load_rows_with_predicate w predicate partition
          ≡ transform w (map (full_row (other_columns w predicate)) (matching keep sel))
    unfolding load_rows_with_predicate read_with_shuffle_row_drop
    load_rows_with_predicate-filters raw sel partition named known frame frame' part decoded others
          included =
        let rows =
          selected_dataframe-map w.floor_quotient w.ngram_length f raw sel partition.0 partition.1
            part in
        let first = each-map (decode_selected w predicate.get_fields) f dp sel decoded in
        let mask = each-map predicate.do_include dp keep sel included in
        let rest = others_of (other_columns w predicate) raw sel partition frame' part others in
        elim (Bool-cases (any (map keep sel))) [
          | inl e ↦
              rw
                (
                  some_fields predicate.get_fields named,
                  no_fields _ known,
                  frame,
                  rows,
                  first,
                  mask,
                  e,
                  filter_mask-map keep dp sel,
                  rest,
                )
                refl
          | inr e ↦
              rw
                (
                  some_fields predicate.get_fields named,
                  no_fields _ known,
                  frame,
                  rows,
                  first,
                  mask,
                  e,
                  none_kept keep sel e,
                  transform_nothing,
                )
                refl
        ]
