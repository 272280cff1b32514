-- ===== src/Selectors/Examples.antt =====
-- Selectors over two indexes of the values 0 and 1.
use petastorm.Prelude.{ℕ, ◌≡◌, refl, List, [], ◌∷◌, ok, ◌==◌, if◌then◌else◌}
use petastorm.Selectors.{
  IndexDict, SingleIndexSelector, get_indexer, mem, union, intersection, any_value, select_single,
  intersect_all, select_intersect, union_all, select_union,
}
use petastorm.Selectors.Members.{all_match, mem-select_intersect}

abbrev indexes : IndexDict ℕ
indexes =
    ("color", λ v. if v == 0 then 1 ∷ 2 ∷ 3 ∷ [] else 4 ∷ [])
    ∷ ("shape", λ v. if v == 0 then 2 ∷ 4 ∷ [] else 3 ∷ [])
    ∷ []

abbrev both : List (SingleIndexSelector ℕ)
both =
    record { index_name = "color"; values_to_select = 0 ∷ [] }
    ∷ record { index_name = "shape"; values_to_select = 0 ∷ 1 ∷ [] }
    ∷ []

intersected : select_intersect both indexes ≡ ok (2 ∷ 3 ∷ [])
unfolding select_intersect select_single get_indexer any_value intersect_all union intersection mem
intersected = refl

mem-select_intersect_example : mem 3 (2 ∷ 3 ∷ []) ≡ all_match 3 indexes both
mem-select_intersect_example = mem-select_intersect 3 indexes (2 ∷ 3 ∷ []) both intersected

united : select_union both indexes ≡ ok (1 ∷ 2 ∷ 4 ∷ 3 ∷ [])
unfolding select_union select_single get_indexer any_value union_all union mem
united = refl
