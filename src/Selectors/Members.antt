-- ===== src/Selectors/Members.antt =====
-- Which row groups the selectors select.
use petastorm.Prelude.{
  Result-cases, ℕ, ◌≡◌, refl, ◌∙◌, Bool, true, false, ◌&&◌, ◌||◌, List, [], ◌∷◌, ok, raise, arith,
  inl, inr,
}
use petastorm.Selectors.{
  mem, union, intersection, IndexDict, get_indexer, SingleIndexSelector, any_value, select_single,
  intersect_all, select_intersect, union_all, select_union,
}

pub mem-union : (i : ℕ) (xs ys : List ℕ) → mem i (union xs ys) ≡ mem i xs || mem i ys
unfolding mem union
mem-union i [] ys = refl
mem-union i (a ∷ xs) ys = ground (arith, mem-union i xs ys, mem-union a xs ys)

pub mem-intersection : (i : ℕ) (xs ys : List ℕ) → mem i (intersection xs ys) ≡ mem i xs && mem i ys
unfolding mem intersection
mem-intersection i [] ys = refl
mem-intersection i (a ∷ xs) ys = ground (arith, mem-intersection i xs ys, mem-intersection a xs ys)

module _ {K : Type 0} where
  -- Some value of the list has the row group.
  unfoldable pub any_has : ℕ → (K → List ℕ) → List K → Bool
  any_has i indexer [] = false
  any_has i indexer (v ∷ vs) = mem i (indexer v) || any_has i indexer vs

  -- What a selector asks for: its index exists, and the row group has one of its values.
  unfoldable pub matches : ℕ → IndexDict K → SingleIndexSelector K → Bool
  matches i index_dict s = elim (get_indexer index_dict s.index_name) [
    | ok indexer ↦ any_has i indexer s.values_to_select
    | raise e ↦ false
  ]

  unfoldable pub all_match : ℕ → IndexDict K → List (SingleIndexSelector K) → Bool
  all_match i index_dict [] = true
  all_match i index_dict (s ∷ ss) = matches i index_dict s && all_match i index_dict ss

  unfoldable pub any_matches : ℕ → IndexDict K → List (SingleIndexSelector K) → Bool
  any_matches i index_dict [] = false
  any_matches i index_dict (s ∷ ss) = matches i index_dict s || any_matches i index_dict ss

  mem-any_value :
      (i : ℕ) (indexer : K → List ℕ) (row_groups : List ℕ) (vs : List K)
      → mem i (any_value indexer row_groups vs) ≡ mem i row_groups || any_has i indexer vs
  unfolding any_value any_has
  mem-any_value i indexer row_groups [] = ground arith
  mem-any_value i indexer row_groups (v ∷ vs) =
      mem-any_value i indexer (union row_groups (indexer v)) vs
      ∙ ground (arith, mem-union i row_groups (indexer v))

  -- A selector of one index selects exactly the row groups that have one of its values.
  pub mem-select_single :
      (i : ℕ) (s : SingleIndexSelector K) (index_dict : IndexDict K) (row_groups : List ℕ)
      → select_single s index_dict ≡ ok row_groups
      → mem i row_groups ≡ matches i index_dict s
  unfolding select_single matches mem
  mem-select_single i s index_dict row_groups e =
      elim (Result-cases (get_indexer index_dict s.index_name)) [
        | inl (indexer, found) ↦
            ground (arith, found, mem-any_value i indexer [] s.values_to_select)
        | inr (error, missing) ↦ absurd (ground (arith, missing))
      ]

  mem-intersect_all :
      (i : ℕ) (index_dict : IndexDict K) (row_groups out : List ℕ)
      (ss : List (SingleIndexSelector K))
      → intersect_all index_dict row_groups ss ≡ ok out
      → mem i out ≡ mem i row_groups && all_match i index_dict ss
  unfolding intersect_all all_match
  mem-intersect_all i index_dict row_groups out [] e = ground arith
  mem-intersect_all i index_dict row_groups out (s ∷ ss) e =
      elim (Result-cases (select_single s index_dict)) [
        | inl (selected, found) ↦
            let rest : intersect_all index_dict (intersection row_groups selected) ss ≡ ok out =
              ground (arith, found) in
            ground (
              arith,
              mem-intersect_all i index_dict (intersection row_groups selected) out ss rest,
              mem-intersection i row_groups selected,
              mem-select_single i s index_dict selected found,
            )
        | inr (error, missing) ↦ absurd (ground (arith, missing))
      ]

  -- An intersection selects exactly the row groups that every selector of it asks for.
  pub mem-select_intersect :
      (i : ℕ) (index_dict : IndexDict K) (out : List ℕ) (ss : List (SingleIndexSelector K))
      → select_intersect ss index_dict ≡ ok out
      → mem i out ≡ all_match i index_dict ss
  unfolding select_intersect all_match
  mem-select_intersect i index_dict out [] e = absurd (ground arith)
  mem-select_intersect i index_dict out (s ∷ ss) e =
      elim (Result-cases (select_single s index_dict)) [
        | inl (selected, found) ↦
            let rest : intersect_all index_dict selected (s ∷ ss) ≡ ok out =
              ground (arith, found) in
            let both = mem-intersect_all i index_dict selected out (s ∷ ss) rest in
            ground (arith, both, mem-select_single i s index_dict selected found)
        | inr (error, missing) ↦ absurd (ground (arith, missing))
      ]

  mem-union_all :
      (i : ℕ) (index_dict : IndexDict K) (row_groups out : List ℕ)
      (ss : List (SingleIndexSelector K))
      → union_all index_dict row_groups ss ≡ ok out
      → mem i out ≡ mem i row_groups || any_matches i index_dict ss
  unfolding union_all any_matches
  mem-union_all i index_dict row_groups out [] e = ground arith
  mem-union_all i index_dict row_groups out (s ∷ ss) e =
      elim (Result-cases (select_single s index_dict)) [
        | inl (selected, found) ↦
            let rest : union_all index_dict (union row_groups selected) ss ≡ ok out =
              ground (arith, found) in
            ground (
              arith,
              mem-union_all i index_dict (union row_groups selected) out ss rest,
              mem-union i row_groups selected,
              mem-select_single i s index_dict selected found,
            )
        | inr (error, missing) ↦ absurd (ground (arith, missing))
      ]

  -- A union selects exactly the row groups that some selector of it asks for.
  pub mem-select_union :
      (i : ℕ) (index_dict : IndexDict K) (out : List ℕ) (ss : List (SingleIndexSelector K))
      → select_union ss index_dict ≡ ok out
      → mem i out ≡ any_matches i index_dict ss
  unfolding select_union mem
  mem-select_union i index_dict out ss e = mem-union_all i index_dict [] out ss e
