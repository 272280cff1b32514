-- ===== src/WeightedSampling.antt =====
-- petastorm/weighted_sampling_reader.py: `WeightedSamplingReader`. A reader is the list of the rows that
-- it still yields. The cumulative probabilities and the draws of numpy are a parameter.
pub mod Streams
pub mod Draws
mod Examples
use Prim.Native.String.{String}
use petastorm.Prelude.{
  ℕ, zero, suc, ◌+◌, Bool, true, false, not, ◌&&◌, ◌||◌, Option, none, some, List, [], ◌∷◌, length,
  leb, ◌==◌, if◌then◌else◌, Result, ok, raise, raise_if, value_error, index_error, stop_iteration,
  Error, ◌>>=◌, ◌>>◌,
}
use petastorm.Indexing.{get_item, set_item}
use petastorm.NGram.Keys.{mem_name}

-- What the constructor compares of the readers; `ngram` is the identity of the NGram's specification.
pub record Reader (T : Type 0) : Type 0 where
  pub batched_output : Bool
  pub field_names : List String
  pub ngram : Option ℕ
  pub rows : List T

pub record WeightedSamplingReader (T P : Type 0) : Type 0 where
  pub readers : List (Reader T)
  pub cum_prob : List P

all_in : List String → List String → Bool
all_in [] names = true
all_in (n ∷ ns) names = mem_name n names && all_in ns names

same_ngram : Option ℕ → Option ℕ → Bool
same_ngram none none = true
same_ngram (some a) (some b) = a == b
same_ngram _ _ = false

same_flag : Bool → Bool → Bool
same_flag true b = b
same_flag false b = not b

module _ {T : Type 0} where
  -- The loop over the other readers: each one is compared with the first.
  unfoldable pub compare_readers : Reader T → List (Reader T) → Result (Unit {0})
  unfolding all_in same_ngram same_flag
  compare_readers first [] = ok tt
  compare_readers first (other ∷ others) = do
    raise_if (not (same_flag first.batched_output other.batched_output)) value_error
    raise_if
        (not (
          all_in first.field_names other.field_names && all_in other.field_names first.field_names))
        value_error
    raise_if (not (same_ngram first.ngram other.ngram)) value_error
    compare_readers first others

  unfoldable pub take_row : Reader T → List T → Result (T × Reader T)
  take_row r [] = raise stop_iteration
  take_row r (x ∷ xs) = ok (x, record r { rows = xs })

  -- `next` of one reader
  unfoldable pub next_row : Reader T → Result (T × Reader T)
  next_row r = take_row r r.rows

module _ {T W P : Type 0} (normalize : List W → List P) where
  compare_all : List (Reader T) → Result (Unit {0})
  compare_all [] = ok tt
  compare_all (first ∷ others) = compare_readers first others

  -- `__init__`; `normalize` is numpy's cumulative sum of the normalized probabilities.
  unfoldable pub init : List (Reader T) → List W → Result (WeightedSamplingReader T P)
  unfolding compare_all
  init readers probabilities = do
    raise_if (leb (length readers) 1) value_error
    raise_if (not (length readers == length probabilities)) value_error
    compare_all readers
    ok (record { readers = readers; cum_prob = normalize probabilities })

module _ {P D : Type 0} (below : D → P → Bool) where
  -- `np.where(r < self._cum_prob)[0][0]`
  unfoldable pub reader_index : D → List P → Result ℕ
  reader_index r [] = raise index_error
  reader_index r (p ∷ ps) = elim (below r p) [
    | true ↦ ok 0
    | false ↦ do i ← reader_index r ps; ok (suc i)
  ]

module _ {T P D : Type 0} (below : D → P → Bool) where
  -- `__next__`: the row, and for the model the index of its reader.
  unfoldable pub next : D → WeightedSamplingReader T P → Result (ℕ × T × WeightedSamplingReader T P)
  next r s = do
    index ← reader_index below r s.cum_prob
    reader ← get_item s.readers index
    (row, reader') ← next_row reader
    readers ← set_item s.readers index reader'
    ok (index, row, record s { readers = readers })

  -- The iteration over so many draws, up to the first exception.
  unfoldable pub run :
      List D → WeightedSamplingReader T P → List (ℕ × T) × WeightedSamplingReader T P × Option Error
  run [] s = ([], s, none)
  run (r ∷ rs) s = elim (next r s) [
    | raise e ↦ ([], s, some e)
    | ok (i, row, s') ↦ let (out, s'', stopped) = run rs s' in ((i, row) ∷ out, s'', stopped)
  ]
