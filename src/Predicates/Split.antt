-- ===== src/Predicates/Split.antt =====
-- The subsets of `in_pseudorandom_split`.
use Prim.Native.String.{String}
use petastorm.Prelude.{
  ℕ, zero, suc, ◌+◌, ◌-◌, ◌≤◌, ◌<◌, ◌≡◌, ◌≢◌, refl, ap, ◌∙◌, Bool, true, false, not, ◌&&◌, List,
  map, length, take, leb, Result, ok, arith, Bool-cases, inl, inr, ◌>>=◌,
}
use petastorm.Indexing.{get_item}
use petastorm.NGram.{range_from}
use petastorm.NGram.Keys.{mem_name}
use petastorm.DataLoader.{Row}
use petastorm.RowGroupWorker.Rows.{get_key}
use petastorm.Predicates.{Fractions, high_borders, low_border, in_bucket, in_pseudorandom_split}

negated_test : (a b : Bool) → a ≡ not b → a ≡ true → b ≡ false
negated_test a true e f = absurd (ground (arith, e, f))
negated_test a false e f = refl

outside_left : (a b : Bool) → b ≡ true → (a && not b) ≡ false
outside_left true b e = rw e refl
outside_left false b e = refl

module _ {V : Type 0} (fs : Fractions) (string_to_bucket : V → ℕ) (fraction_list : List fs.Fraction)
    (predicate_field : String) where
  -- Whether a row is in the subset of an index.
  abbrev pub in_subset : Row V → ℕ → Result Bool
  in_subset values i = do
    predicate ← in_pseudorandom_split fs string_to_bucket fraction_list i predicate_field
    predicate.do_include values

  -- The upper border of a subset.
  abbrev pub high : ℕ → fs.Border
  high i = fs.scale (fs.sum (take (i + 1) fraction_list))

  abbrev low : ℕ → fs.Border
  low zero = fs.scale fs.none_of_it
  low (suc i) = high i

  get_range :
      {X : Type 0} (f : ℕ → X) (start n i : ℕ)
      → i < n
      → get_item (map f (range_from start n)) i ≡ ok (f (start + i))
  unfolding get_item range_from
  get_range f start zero i h = absurd (omega arith)
  get_range f start (suc n) zero h = ap (λ k. ok (f k)) (omega arith)
  get_range f start (suc n) (suc i) h =
      get_range f (start + 1) n i (omega (arith, h)) ∙ ap (λ k. ok (f k)) (omega arith)

  high_found :
      (i : ℕ)
      → i < length fraction_list
      → get_item (high_borders fs string_to_bucket fraction_list) i
        ≡ ok (fs.sum (take (i + 1) fraction_list))
  unfolding high_borders
  high_found i h =
      get_range (λ k. fs.sum (take (k + 1) fraction_list)) 0 (length fraction_list) i h
      ∙ ap (λ k. ok (fs.sum (take (k + 1) fraction_list))) (omega arith)

  low_found :
      (i : ℕ)
      → i < length fraction_list
      → (x : fs.Fraction) × (low_border fs string_to_bucket
            (high_borders fs string_to_bucket fraction_list)
            i
          ≡ ok x)
        × (fs.scale x ≡ low i)
  unfolding low_border
  low_found zero h = (fs.none_of_it, refl, refl)
  low_found (suc i) h = (_, high_found i (omega (arith, h)), refl)

  subset_of :
      (values : Row V) (v : V) (i : ℕ)
      → mem_name predicate_field (map (λ e. e.0) values) ≡ true
      → get_key values predicate_field ≡ ok v
      → i < length fraction_list
      → in_subset values i
        ≡ ok (fs.at_or_below (low i) (string_to_bucket v) && fs.above (string_to_bucket v) (high i))
  unfolding in_pseudorandom_split in_bucket
  subset_of values v i has found h =
      let in_range : leb (length fraction_list) i ≡ false = ground (arith, h) in
      let (x, below, e) = low_found i h in rw (in_range, below, high_found i h, has, found, e) refl

  -- The subset whose lower border is the last one at or below the bucket.
  search :
      (idx c : ℕ)
      → fs.at_or_below (fs.scale fs.none_of_it) idx ≡ true
      → fs.at_or_below (high c) idx ≡ false
      → (i : ℕ) × (i ≤ c)
        × (fs.at_or_below (low i) idx ≡ true)
        × (fs.at_or_below (high i) idx ≡ false)
  search idx zero start last = (0, omega arith, start, last)
  search idx (suc c) start last = elim (Bool-cases (fs.at_or_below (high c) idx)) [
    | inl e ↦ (suc c, omega arith, e, last)
    | inr e ↦ let (i, le, lo, hi) = search idx c start e in (i, omega (arith, le), lo, hi)
  ]

  later :
      (idx i j : ℕ)
      → j < i
      → suc j ≢ i
      → ((a b : ℕ)
          → a ≤ b
          → fs.at_or_below (high b) idx ≡ true
          → fs.at_or_below (high a) idx ≡ true)
      → fs.at_or_below (low i) idx ≡ true
      → (fs.at_or_below (low (suc j)) idx && not (fs.at_or_below (high (suc j)) idx)) ≡ false
  later idx zero j less other ascending lo = absurd (omega (arith, less))
  later idx (suc i) j less other ascending lo =
      outside_left (fs.at_or_below (low (suc j)) idx) (fs.at_or_below (high (suc j)) idx)
        (ascending (suc j) i (grind (arith, less, other)) lo)

  outside :
      (idx i j : ℕ)
      → j ≢ i
      → ((a b : ℕ)
          → a ≤ b
          → fs.at_or_below (high b) idx ≡ true
          → fs.at_or_below (high a) idx ≡ true)
      → fs.at_or_below (low i) idx ≡ true
      → fs.at_or_below (high i) idx ≡ false
      → (fs.at_or_below (low j) idx && not (fs.at_or_below (high j) idx)) ≡ false
  outside idx zero zero other ascending lo hi = absurd (other refl)
  outside idx (suc i) zero other ascending lo hi =
      outside_left (fs.at_or_below (low zero) idx) (fs.at_or_below (high zero) idx)
        (ascending zero i (omega arith) lo)
  outside idx i (suc j) other ascending lo hi = elim (Bool-cases (leb i j)) [
    | inl before ↦ elim (Bool-cases (fs.at_or_below (high j) idx)) [
      | inl e ↦ absurd (ground (arith, ascending i j (ground (arith, before)) e, hi))
      | inr e ↦ rw e refl
    ]
    | inr behind ↦ later idx i j (ground (arith, behind)) other ascending lo
  ]

  -- For fractions whose sums never get smaller, with borders that are compared exactly, and for a row
  -- that has the field and whose bucket is at or above 0 and below the last border: the row is in
  -- exactly one of the subsets, and asking for any of them raises nothing.
  pub exactly_one_subset :
      (values : Row V) (v : V)
      → mem_name predicate_field (map (λ e. e.0) values) ≡ true
      → get_key values predicate_field ≡ ok v
      → 0 < length fraction_list
      → ((b : fs.Border)
          → fs.above (string_to_bucket v) b ≡ not (fs.at_or_below b (string_to_bucket v)))
      → ((i j : ℕ)
          → i ≤ j
          → fs.at_or_below (high j) (string_to_bucket v) ≡ true
          → fs.at_or_below (high i) (string_to_bucket v) ≡ true)
      → fs.at_or_below (fs.scale fs.none_of_it) (string_to_bucket v) ≡ true
      → fs.above (string_to_bucket v) (high (length fraction_list - 1)) ≡ true
      → (i : ℕ) × (i < length fraction_list)
        × (in_subset values i ≡ ok true)
        × ((j : ℕ) → j < length fraction_list → j ≢ i → in_subset values j ≡ ok false)
  exactly_one_subset values v has found some_subsets exact ascending start end_ =
      let idx = string_to_bucket v in
      let c = length fraction_list - 1 in
      let last : fs.at_or_below (high c) idx ≡ false =
        negated_test (fs.above idx (high c)) (fs.at_or_below (high c) idx) (exact (high c)) end_ in
      let (i, le, lo, hi) = search idx c start last in
      let inside : i < length fraction_list = omega (arith, le, some_subsets) in
      (
        i,
        inside,
        subset_of values v i has found inside ∙ rw (exact (high i), lo, hi) refl,
        λ j h other.
            subset_of values v j has found h
            ∙ ap ok (rw (exact (high j)) (outside idx i j other ascending lo hi)),
      )
