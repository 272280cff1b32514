-- ===== src/Indexers/Contents.antt =====
-- What the indexers know after a row group was indexed.
use petastorm.Prelude.{
  ℕ, ◌≡◌, ◌↔◌, refl, ap, ◌∙◌, sym, Bool, true, false, ◌&&◌, ◌||◌, List, [], ◌∷◌, ◌==◌, ok, arith,
  Bool-cases, inl, inr,
}
use petastorm.Selectors.{mem}
use petastorm.Indexers.{
  Field, SingleFieldIndexer, insert, get_row_group_indexes, add_to, add_values, add_fields,
  build_index,
}

mem-insert : (i p : ℕ) (xs : List ℕ) → mem i (insert p xs) ≡ mem i xs || (i == p)
unfolding insert mem
mem-insert i p xs = elim (Bool-cases (i == p)) [
  | inl here ↦ let e : i ≡ p = ground arith in ground (arith, ap (λ j. mem j xs) e)
  | inr other ↦ ground (arith, other)
]

module _ {K : Type 0} (same : K → K → Bool)
    (same_iff : (a b : K) → (same a b ≡ true) ↔ (a ≡ b)) where
  abbrev known : ℕ → K → List (K × List ℕ) → Bool
  known i v index_data = mem i (get_row_group_indexes same index_data v)

  -- Two values of which only one is a third are different.
  apart : (v w u : K) → same v u ≡ true → same w u ≡ false → same v w ≡ false
  apart v w u mine other = elim (Bool-cases (same v w)) [
    | inl equal ↦
        let together : same w u ≡ true =
          (same_iff w u).1 (sym ((same_iff v w).0 equal) ∙ (same_iff v u).0 mine) in
        absurd (ground (arith, together, other))
    | inr differ ↦ differ
  ]

  mem-add_to :
      (i piece : ℕ) (v w : K) (index_data : List (K × List ℕ))
      → known i v (add_to same index_data w piece)
        ≡ known i v index_data || ((i == piece) && same v w)
  unfolding add_to get_row_group_indexes mem
  mem-add_to i piece v w [] = ground arith
  mem-add_to i piece v w (e ∷ es) = elim (Bool-cases (same w e.0)) [
    | inl here ↦
        let key : w ≡ e.0 = (same_iff w e.0).0 here in
        ground (arith, here, ap (same v) key, mem-insert i piece e.1)
    | inr other ↦ elim (Bool-cases (same v e.0)) [
      | inl mine ↦
          let differs : same v w ≡ false = apart v w e.0 mine other in
          ground (arith, other, mine, differs)
      | inr not_mine ↦ ground (arith, other, not_mine, mem-add_to i piece v w es)
    ]
  ]

  unfoldable pub occurs : K → List K → Bool
  occurs v [] = false
  occurs v (w ∷ ws) = same v w || occurs v ws

  -- Whether the column has the value, by itself or in an array.
  unfoldable pub in_column : K → List (Field K) → Bool
  in_column v [] = false
  in_column v (Field.missing ∷ fs) = in_column v fs
  in_column v (Field.array vs ∷ fs) = occurs v vs || in_column v fs
  in_column v (Field.value w ∷ fs) = same v w || in_column v fs

  mem-add_values :
      (i piece : ℕ) (v : K) (vs : List K) (index_data : List (K × List ℕ))
      → known i v (add_values same index_data vs piece)
        ≡ known i v index_data || ((i == piece) && occurs v vs)
  unfolding add_values occurs
  mem-add_values i piece v [] index_data = ground arith
  mem-add_values i piece v (w ∷ ws) index_data = ground (
    arith,
    mem-add_values i piece v ws (add_to same index_data w piece),
    mem-add_to i piece v w index_data,
  )

  mem-add_fields :
      (i piece : ℕ) (v : K) (fs : List (Field K)) (index_data : List (K × List ℕ))
      → known i v (add_fields same index_data fs piece)
        ≡ known i v index_data || ((i == piece) && in_column v fs)
  unfolding add_fields in_column
  mem-add_fields i piece v [] index_data = ground arith
  mem-add_fields i piece v (Field.missing ∷ fs) index_data = mem-add_fields i piece v fs index_data
  mem-add_fields i piece v (Field.array vs ∷ fs) index_data = ground (
    arith,
    mem-add_fields i piece v fs (add_values same index_data vs piece),
    mem-add_values i piece v vs index_data,
  )
  mem-add_fields i piece v (Field.value w ∷ fs) index_data = ground (
    arith,
    mem-add_fields i piece v fs (add_to same index_data w piece),
    mem-add_to i piece v w index_data,
  )

  -- After a row group with at least one row was indexed, the indexer answers for each value with the
  -- row groups it answered with before, and with that row group exactly if its column has the value,
  -- by itself or in an array. It is assumed that the test of values decides their equality.
  pub mem-build_index :
      (i piece : ℕ) (v : K) (f : Field K) (fs : List (Field K)) (x : SingleFieldIndexer K)
      → (y : SingleFieldIndexer K) × (build_index same x (f ∷ fs) piece ≡ ok y)
        × (mem i (get_row_group_indexes same y.index_data v)
            ≡ mem i (get_row_group_indexes same x.index_data v)
              || ((i == piece) && in_column v (f ∷ fs)))
  unfolding build_index
  mem-build_index i piece v f fs x = (
    record x { index_data = add_fields same x.index_data (f ∷ fs) piece },
    refl,
    mem-add_fields i piece v (f ∷ fs) x.index_data,
  )
