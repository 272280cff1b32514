-- ===== src/WeightedSampling/Examples.antt =====
-- Two readers, of which the first one is drawn one time in ten.
use petastorm.Prelude.{arith, refl, ℕ, ◌≡◌, false, Option, none, List, [], ◌∷◌, ◌++◌, ltb, Error}
use petastorm.WeightedSampling.{Reader, WeightedSamplingReader, run}
use petastorm.WeightedSampling.Streams.{rows_of, taken_from}
use petastorm.WeightedSampling.Draws.{Follows, run-Follows}

abbrev reader_of : List ℕ → Reader ℕ
reader_of rows = record {
  batched_output = false;
  field_names = "id" ∷ [];
  ngram = none;
  rows = rows;
}

abbrev both : WeightedSamplingReader ℕ ℕ
both = record {
  readers = reader_of (1 ∷ 2 ∷ []) ∷ reader_of (11 ∷ 12 ∷ []) ∷ [];
  cum_prob = 10 ∷ 100 ∷ [];
}

-- The last draw is for a reader without rows.
abbrev draws : List ℕ
draws = 50 ∷ 5 ∷ 99 ∷ 60 ∷ []

run-Follows_example :
    (out : List (ℕ × ℕ)) × (s' : WeightedSamplingReader ℕ ℕ) × (stopped : Option Error) × (run ltb
        draws both
      ≡ (out, s', stopped))
    × ((j : ℕ) → rows_of both.readers j ≡ taken_from j out ++ rows_of s'.readers j)
    × Follows ltb both.cum_prob (rows_of s'.readers) draws out stopped
run-Follows_example = run-Follows ltb draws both (omega arith) (
  (1, 100, refl, refl),
  ((0, 10, refl, refl), ((1, 100, refl, refl), ((1, 100, refl, refl), tt))),
)
