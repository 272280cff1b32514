-- ===== src/Selectors.antt =====
-- petastorm/selectors.py: the row group selectors. A set of row groups is a list that is asked for
-- its members. An indexer is what it answers for a value (`get_row_group_indexes`), and the
-- dictionary of the indexers is a list of them by their names.
pub mod Members
mod Examples
use Prim.Native.String.{String}
use petastorm.Prelude.{
  ℕ, zero, suc, Bool, true, false, List, [], ◌∷◌, ◌++◌, map, ◌==◌, if◌then◌else◌, Result, ok, raise,
  key_error, index_error, ◌>>=◌,
}
use petastorm.NGram.Keys.{same_name}

unfoldable pub mem : ℕ → List ℕ → Bool
mem i [] = false
mem i (j ∷ js) = if i == j then true else mem i js

-- `a | b`, `a & b`
unfoldable pub union : List ℕ → List ℕ → List ℕ
union [] ys = ys
union (a ∷ xs) ys = let rest = union xs ys in if mem a rest then rest else a ∷ rest

unfoldable pub intersection : List ℕ → List ℕ → List ℕ
intersection [] ys = []
intersection (a ∷ xs) ys = let rest = intersection xs ys in if mem a ys then a ∷ rest else rest

abbrev pub IndexDict : Type 0 → Type 0
IndexDict K = List (String × (K → List ℕ))

pub record SingleIndexSelector (K : Type 0) : Type 0 where
  pub index_name : String
  pub values_to_select : List K

module _ {K : Type 0} where
  -- `index_dict[name]`
  unfoldable pub get_indexer : IndexDict K → String → Result (K → List ℕ)
  get_indexer [] name = raise key_error
  get_indexer (e ∷ es) name = if same_name name e.0 then ok e.1 else get_indexer es name

  -- The loop over the values.
  unfoldable pub any_value : (K → List ℕ) → List ℕ → List K → List ℕ
  any_value indexer row_groups [] = row_groups
  any_value indexer row_groups (value ∷ values) =
      any_value indexer (union row_groups (indexer value)) values

  unfoldable pub select_single : SingleIndexSelector K → IndexDict K → Result (List ℕ)
  select_single s index_dict = do
    indexer ← get_indexer index_dict s.index_name
    ok (any_value indexer [] s.values_to_select)

  -- `get_index_names` of the selectors of several indexes
  unfoldable pub index_names : List (SingleIndexSelector K) → List String
  index_names selectors = map (λ s. s.index_name) selectors

  unfoldable pub intersect_all :
      IndexDict K → List ℕ → List (SingleIndexSelector K) → Result (List ℕ)
  intersect_all index_dict row_groups [] = ok row_groups
  intersect_all index_dict row_groups (s ∷ selectors) = do
    selected ← select_single s index_dict
    intersect_all index_dict (intersection row_groups selected) selectors

  -- `IntersectIndexSelector`; `selectors[0]` of no selectors is an IndexError
  unfoldable pub select_intersect : List (SingleIndexSelector K) → IndexDict K → Result (List ℕ)
  select_intersect [] index_dict = raise index_error
  select_intersect (s ∷ selectors) index_dict = do
    row_groups ← select_single s index_dict
    intersect_all index_dict row_groups (s ∷ selectors)

  unfoldable pub union_all : IndexDict K → List ℕ → List (SingleIndexSelector K) → Result (List ℕ)
  union_all index_dict row_groups [] = ok row_groups
  union_all index_dict row_groups (s ∷ selectors) = do
    selected ← select_single s index_dict
    union_all index_dict (union row_groups selected) selectors

  -- `UnionIndexSelector`
  unfoldable pub select_union : List (SingleIndexSelector K) → IndexDict K → Result (List ℕ)
  select_union selectors index_dict = union_all index_dict [] selectors

-- The three classes of selectors.
pub data RowGroupSelector (K : Type 0) : Type 0 where
  single : SingleIndexSelector K → RowGroupSelector K
  intersect_of union_of : List (SingleIndexSelector K) → RowGroupSelector K

module _ {K : Type 0} where
  unfoldable pub get_index_names : RowGroupSelector K → List String
  unfolding index_names
  get_index_names (RowGroupSelector.single s) = s.index_name ∷ []
  get_index_names (RowGroupSelector.intersect_of ss) = index_names ss
  get_index_names (RowGroupSelector.union_of ss) = index_names ss

  unfoldable pub select_row_groups : RowGroupSelector K → IndexDict K → Result (List ℕ)
  select_row_groups (RowGroupSelector.single s) d = select_single s d
  select_row_groups (RowGroupSelector.intersect_of ss) d = select_intersect ss d
  select_row_groups (RowGroupSelector.union_of ss) d = select_union ss d
