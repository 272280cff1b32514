-- ===== src/Predicates/Examples.antt =====
-- A split into three subsets, with the fractions in percent and a hundred buckets.
use petastorm.Prelude.{
  ℕ, zero, suc, ◌+◌, ◌≤◌, ◌<◌, ◌≡◌, ◌≢◌, refl, true, false, not, List, [], ◌∷◌, map, length, take,
  leb, ltb, ok, arith,
}
use petastorm.DataLoader.{Row}
use petastorm.NGram.Keys.{mem_name}
use petastorm.RowGroupWorker.Rows.{get_key, lookup}
use petastorm.Predicates.{Fractions}
use petastorm.Predicates.Split.{in_subset, high, exactly_one_subset}

abbrev total : List ℕ → ℕ
total [] = 0
total (x ∷ xs) = x + total xs

abbrev percent : Fractions
percent = record {
  Fraction = ℕ;
  Border = ℕ;
  none_of_it = 0;
  sum = total;
  scale = λ x. x;
  at_or_below = leb;
  above = ltb;
}

abbrev thirds : List ℕ
thirds = 50 ∷ 20 ∷ 30 ∷ []

abbrev bucket : ℕ → ℕ
bucket v = v

abbrev values : Row ℕ
values = ("id", 60) ∷ []

total-take : (xs : List ℕ) (i j : ℕ) → i ≤ j → total (take i xs) ≤ total (take j xs)
total-take xs zero j h = omega arith
total-take xs (suc i) zero h = absurd (omega (arith, h))
total-take [] (suc i) (suc j) h = omega arith
total-take (x ∷ xs) (suc i) (suc j) h = omega (arith, total-take xs i j (omega (arith, h)))

compared : (b : ℕ) → ltb 60 b ≡ not (leb b 60)
compared b = ground arith

ascending :
    (i j : ℕ)
    → i ≤ j
    → leb (high percent bucket thirds "id" j) 60 ≡ true
    → leb (high percent bucket thirds "id" i) 60 ≡ true
ascending i j h e = ground (arith, e, total-take thirds (i + 1) (j + 1) (omega (arith, h)))

named : mem_name "id" (map (λ e. e.0) values) ≡ true
unfolding mem_name
named = refl

found : get_key values "id" ≡ ok 60
unfolding get_key lookup
found = refl

exactly_one_subset_example :
    (i : ℕ) × (i < length thirds)
    × (in_subset percent bucket thirds "id" values i ≡ ok true)
    × ((j : ℕ)
        → j < length thirds
        → j ≢ i
        → in_subset percent bucket thirds "id" values j ≡ ok false)
exactly_one_subset_example =
    exactly_one_subset percent bucket thirds "id" values 60 named found (omega arith) compared
      ascending refl refl
