-- ===== src/RowGroupWorker/PredicateExample.antt =====
-- Loading with a predicate from a row group of four rows, which has an identifier and a label.
use petastorm.Prelude.{
  ℕ, ◌*◌, ◌/◌, ◌≡◌, refl, Bool, false, Option, none, some, List, [], ◌∷◌, map, ltb, if◌then◌else◌,
  Result, ok, raise, key_error, arith,
}
use petastorm.Tensors.{each}
use petastorm.NGram.{range_from}
use petastorm.NGram.Keys.{mem_name}
use petastorm.RowGroupWorker.{selected_dataframe, partition_indexes, pick}
use petastorm.RowGroupWorker.Rows.{
  NullableRow, lookup, get_key, select_cols, decode_value, decode_row, without,
}
use petastorm.RowGroupWorker.Loading.{
  Predicate, Worker, data_frame, transform, decode_selected, other_columns,
  load_rows_with_predicate, all_schema_names,
}
use petastorm.RowGroupWorker.Pushdown.{
  matching, EachGives, full_row, load_rows_with_predicate-filters,
}

abbrev raw : List ℕ
raw = 1 ∷ 2 ∷ 3 ∷ 4 ∷ []

abbrev label : ℕ → NullableRow ℕ
label n = ("label", some (n * 10)) ∷ []

abbrev id : ℕ → NullableRow ℕ
id n = ("id", some n) ∷ []

abbrev as_it_is : ℕ → Result ℕ
as_it_is v = ok v

abbrev exact : ℕ → ℕ → ℕ → ℕ
exact i n m = i * m / n

abbrev worker : Worker ℕ
worker = record {
  schema = ("id", as_it_is) ∷ ("label", as_it_is) ∷ [];
  partition_names = [];
  ngram_length = none;
  transform_spec = none;
  shuffle_rows = false;
  floor_quotient = exact;
  read_columns = λ names. if mem_name "label" names then map label raw else map id raw;
  sample = λ n rows. rows;
}

abbrev above_15 : ℕ → Bool
above_15 n = ltb 15 (n * 10)

abbrev include : Option (Option ℕ) → Result Bool
include none = raise key_error
include (some none) = ok false
include (some (some v)) = ok (ltb 15 v)

abbrev predicate : Predicate ℕ
predicate = record { get_fields = "label" ∷ []; do_include = λ row. include (lookup row "label") }

known : without predicate.get_fields (all_schema_names worker) ≡ []
unfolding without mem_name
known = refl

labels_frame : data_frame worker 0 predicate.get_fields ≡ map label raw
unfolding data_frame mem_name
labels_frame = refl

others_frame : data_frame worker 1 (other_columns worker predicate) ≡ map id raw
unfolding data_frame mem_name without
others_frame = refl

first_half : selected_dataframe exact none raw 0 2 ≡ ok (1 ∷ 2 ∷ [])
unfolding selected_dataframe partition_indexes pick range_from
first_half = refl

labels : EachGives (λ n. decode_selected worker ("label" ∷ []) (label n)) label (1 ∷ 2 ∷ [])
unfolding decode_selected select_cols get_key lookup each decode_row decode_value
labels = (refl, (refl, tt))

others : EachGives (λ n. decode_row (id n) worker.schema) id (1 ∷ 2 ∷ [])
unfolding decode_row decode_value lookup
others = (refl, (refl, tt))

included : EachGives (λ n. predicate.do_include (label n)) above_15 (1 ∷ 2 ∷ [])
unfolding lookup
included = (refl, (refl, tt))

load_rows_with_predicate-filters_example :
    load_rows_with_predicate worker predicate (0, 2)
    ≡ transform worker (
        map
          (full_row worker predicate label id label id above_15 (other_columns worker predicate))
          (matching above_15 (1 ∷ 2 ∷ [])))
load_rows_with_predicate-filters_example =
    load_rows_with_predicate-filters worker predicate label id label id above_15 raw (1 ∷ 2 ∷ [])
      (0, 2) (omega arith) known labels_frame others_frame first_half labels others included
