-- ===== src/NGram/Examples.antt =====
-- NGrams of two time steps, -1 and 0, over rows whose only fields are the timestamp and a value.
use petastorm.Prelude.{
  ℕ, ◌≡◌, ◌↔◌, refl, Bool, true, false, none, List, [], ◌∷◌, ok, raise, not_implemented_error,
  arith,
}
use petastorm.NGram.Keys.{ℤ, add, distance, min_key, max_key, mem_name, same_key}
use petastorm.NGram.{
  NGram, Row, base_key, ngram_length, is_sorted, ngram_pass_threshold, range_from, form_ngram,
  form_loop, round, overlaps, appended, end_timestamp, label, select, get_field_names_at_timestep,
}
use petastorm.NGram.Windows.{windows}
use petastorm.NGram.Chosen.{
  labels, near_windows, apart_windows, Apart, form_ngram_overlapping, form_ngram-Apart,
}
use petastorm.NGram.Refused.{form_ngram-raises_iff}

abbrev pair : Bool → NGram
pair overlap = record {
  first_field = (ℤ.pos 0, "ts" ∷ "value" ∷ []);
  other_fields = (ℤ.negsuc 0, "value" ∷ []) ∷ [];
  delta_threshold = 5;
  timestamp_overlap = overlap;
}

abbrev row_at : ℕ → ℕ → Row ℕ
row_at t v = ("ts", t) ∷ ("value", v) ∷ []

abbrev stamp : Row ℕ → ℕ
stamp [] = 0
stamp (e ∷ es) = e.1

-- The third row comes late.
abbrev rows : List (Row ℕ)
rows = row_at 1 7 ∷ row_at 3 8 ∷ row_at 20 9 ∷ row_at 22 10 ∷ []

pairs_formed :
    form_ngram stamp (pair true) rows
    ≡ ok (
        ((ℤ.negsuc 0, ("value", 7) ∷ []) ∷ (ℤ.pos 0, row_at 3 8) ∷ [])
        ∷ ((ℤ.negsuc 0, ("value", 9) ∷ []) ∷ (ℤ.pos 0, row_at 22 10) ∷ [])
        ∷ [])
unfolding form_ngram form_loop round overlaps appended end_timestamp is_sorted ngram_pass_threshold
    range_from ngram_length base_key label select get_field_names_at_timestep min_key max_key
    distance add mem_name same_key
pairs_formed = refl

form_ngram_overlapping_example :
    form_ngram stamp (pair true) rows
    ≡ ok (labels stamp (pair true) (near_windows stamp 5 (windows (ngram_length (pair true)) rows)))
unfolding is_sorted
form_ngram_overlapping_example = form_ngram_overlapping stamp (pair true) rows refl refl

form_ngram-Apart_example :
    (form_ngram stamp (pair false) rows
      ≡ ok (
          labels stamp
            (pair false)
            (apart_windows stamp 5 none (windows (ngram_length (pair false)) rows))))
    × Apart stamp none (apart_windows stamp 5 none (windows (ngram_length (pair false)) rows))
unfolding is_sorted
form_ngram-Apart_example = form_ngram-Apart stamp (pair false) rows refl refl

abbrev unsorted : List (Row ℕ)
unsorted = row_at 1 7 ∷ row_at 9 8 ∷ row_at 3 9 ∷ []

form_ngram-raises_iff_example :
    (form_ngram stamp (pair true) unsorted ≡ raise not_implemented_error)
    ↔ (is_sorted stamp unsorted ≡ false)
unfolding ngram_length base_key min_key max_key distance
form_ngram-raises_iff_example =
    form_ngram-raises_iff stamp (pair true) unsorted (omega arith) (omega arith)
