-- ===== src/Reader/RowGroups.antt =====
-- Which row groups a reader reads.
use petastorm.Prelude.{
  ℕ, zero, suc, ◌+◌, ◌%◌, ◌≤◌, ◌<◌, ◌≡◌, refl, ap, Bool, true, ◌&&◌, Option, none, some, List, [],
  ◌∷◌, map, length, leb, ltb, ◌==◌, ok, arith, Bool-cases, inl, inr,
}
use petastorm.NGram.{range_from}
use petastorm.Selectors.{IndexDict, RowGroupSelector, mem, select_row_groups, get_index_names}
use petastorm.Reader.{
  filter, partition_row_groups, shuffled, apply_row_group_selector, Dataset,
  apply_predicate_to_row_groups, select, filter_row_groups, subset, is_missing,
}

pub mem-filter :
    (i : ℕ) (test : ℕ → Bool) (xs : List ℕ) → mem i (filter test xs) ≡ mem i xs && test i
unfolding mem filter
mem-filter i test [] = refl
mem-filter i test (x ∷ xs) = elim (Bool-cases (i == x)) [
  | inl same ↦ let e : i ≡ x = ground arith in ground (arith, same, ap test e, mem-filter i test xs)
  | inr other ↦ ground (arith, other, mem-filter i test xs)
]

mem-range_from : (i k m : ℕ) → mem i (range_from k m) ≡ leb k i && ltb i (k + m)
unfolding mem range_from
mem-range_from i k zero = ground arith
mem-range_from i k (suc m) = ground (arith, mem-range_from i (k + 1) m)

mem-shuffled :
    (shuffle : ℕ → List ℕ → List ℕ) (seed : Option ℕ) (i : ℕ) (xs : List ℕ)
    → ((s : ℕ) (ys : List ℕ) → mem i (shuffle s ys) ≡ mem i ys)
    → mem i (shuffled shuffle seed xs) ≡ mem i xs
unfolding shuffled
mem-shuffled shuffle none i xs keeps = refl
mem-shuffled shuffle (some s) i xs keeps = keeps s xs

module _ {V K : Type 0} (dataset : Dataset V) (available : IndexDict K)
    (selector : RowGroupSelector K) (selected : List ℕ)
    (known : subset (get_index_names selector) (map (λ e. e.0) available) ≡ true)
    (found : select_row_groups selector available ≡ ok selected) where
  selected_groups : List ℕ → List ℕ
  selected_groups indexes = filter (λ i. mem i selected) indexes

  apply_row_group_selector-known :
      (indexes : List ℕ)
      → apply_row_group_selector available selector indexes ≡ ok (selected_groups indexes)
  unfolding apply_row_group_selector selected_groups
  apply_row_group_selector-known indexes = ground (arith, known, found)

  -- With a selector whose indexes are available and no predicate, a reader of shard `k` of `n` reads
  -- exactly the row groups of the dataset that the selector selects and whose index is `k` modulo
  -- `n`; nothing is raised and no predicate is left to the workers. It is assumed that the shuffle
  -- keeps the members of a list.
  pub filter_row_groups-mem :
      (shuffle : ℕ → List ℕ → List ℕ) (n k : ℕ) (seed : Option ℕ)
      → ((i s : ℕ) (ys : List ℕ) → mem i (shuffle s ys) ≡ mem i ys)
      → 0 < n
      → n ≤ length dataset.row_groups
      → (out : List ℕ) × (filter_row_groups dataset shuffle available none
            (some selector)
            (some k)
            (some n)
            seed
          ≡ ok (out, none))
        × ((i : ℕ)
            → mem i out ≡ (ltb i (length dataset.row_groups) && mem i selected) && (i % n == k))
  unfolding filter_row_groups apply_predicate_to_row_groups select partition_row_groups
      selected_groups is_missing
  filter_row_groups-mem shuffle n k seed keeps pos fits =
      let total = length dataset.row_groups in
      let sel = selected_groups (range_from 0 total) in
      let out = filter (λ index. index % n == k) (shuffled shuffle seed sel) in
      (
        out,
        ground (arith, apply_row_group_selector-known (range_from 0 total)),
        λ i. ground (
          arith,
          mem-filter i (λ index. index % n == k) (shuffled shuffle seed sel),
          mem-shuffled shuffle seed i sel (keeps i),
          mem-filter i (λ j. mem j selected) (range_from 0 total),
          mem-range_from i 0 total,
        ),
      )
