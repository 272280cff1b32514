-- ===== src/NGram.antt =====
-- petastorm/ngram.py: `NGram`. A row of the data is a dictionary; `timestamp` is the number in its
-- timestamp field, which every row has. The deltas and the timestamps are natural numbers.
pub mod Keys
pub mod Windows
pub mod Sorted
pub mod Chosen
pub mod Refused
mod Examples
use Prim.Native.String.{String}
use petastorm.Prelude.{
  ℕ, zero, suc, ◌+◌, ◌-◌, Bool, true, false, not, ◌&&◌, Option, none, some, List, [], ◌∷◌, ◌++◌,
  map, length, take, drop, leb, ltb, ◌==◌, if◌then◌else◌, Result, ok, raise, raise_if, index_error,
  not_implemented_error, ◌>>=◌, ◌>>◌,
}
use petastorm.NGram.Keys.{ℤ, add, distance, min_key, max_key, same_key, mem_name}

abbrev pub Row : Type 0 → Type 0
Row V = List (String × V)

-- `fields` is the dictionary from time steps to the names of their fields, once these are resolved;
-- it has at least one entry.
pub record NGram : Type 0 where
  pub first_field : ℤ × List String
  pub other_fields : List (ℤ × List String)
  pub delta_threshold : ℕ
  pub timestamp_overlap : Bool

unfoldable pub base_key : NGram → ℤ
base_key g = min_key g.first_field.0 (map (λ e. e.0) g.other_fields)

unfoldable pub ngram_length : NGram → ℕ
unfolding base_key
ngram_length g = distance (base_key g) (max_key g.first_field.0 (map (λ e. e.0) g.other_fields)) + 1

names_at : ℤ → List (ℤ × List String) → List String
names_at timestep [] = []
names_at timestep (e ∷ es) = if same_key timestep e.0 then e.1 else names_at timestep es

unfoldable pub get_field_names_at_timestep : NGram → ℤ → List String
unfolding names_at
get_field_names_at_timestep g timestep = names_at timestep (g.first_field ∷ g.other_fields)

-- `range(n)`, from `i` on
unfoldable pub range_from : ℕ → ℕ → List ℕ
range_from i zero = []
range_from i (suc n) = i ∷ range_from (i + 1) n

module _ {V : Type 0} where
  -- `{k: current_item[k] for k in current_item if k in names}`
  unfoldable pub select : List String → Row V → Row V
  select names [] = []
  select names (e ∷ es) = if mem_name e.0 names then e ∷ select names es else select names es

  -- The new item: the rows by their time steps, with the fields of the time step.
  unfoldable pub label : NGram → ℕ → List (Row V) → List (ℤ × Row V)
  label g key [] = []
  label g key (row ∷ rows) =
      let timestep = add (base_key g) key in
      (timestep, select (get_field_names_at_timestep g timestep) row) ∷ label g (key + 1) rows

module _ {V : Type 0} (timestamp : Row V → ℕ) where
  unfoldable pub is_sorted : List (Row V) → Bool
  is_sorted [] = true
  is_sorted (r ∷ []) = true
  is_sorted (r ∷ s ∷ rest) = leb (timestamp r) (timestamp s) && is_sorted (s ∷ rest)

  -- `current - previous > delta_threshold` for no two neighbours
  unfoldable pub ngram_pass_threshold : ℕ → List (Row V) → Bool
  ngram_pass_threshold delta [] = true
  ngram_pass_threshold delta (r ∷ []) = true
  ngram_pass_threshold delta (r ∷ s ∷ rest) =
      if ltb (timestamp r + delta) (timestamp s)
      then false
      else ngram_pass_threshold delta (s ∷ rest)

  -- `potential_ngram[0]`, `potential_ngram[-1]`
  unfoldable pub start_timestamp : List (Row V) → Result ℕ
  start_timestamp [] = raise index_error
  start_timestamp (r ∷ rest) = ok (timestamp r)

  unfoldable pub end_timestamp : List (Row V) → Result ℕ
  end_timestamp [] = raise index_error
  end_timestamp (r ∷ []) = ok (timestamp r)
  end_timestamp (r ∷ s ∷ rest) = end_timestamp (s ∷ rest)

  -- The test that ends a round of the loop early.
  unfoldable pub overlaps : NGram → Option ℕ → List (Row V) → Result Bool
  unfolding start_timestamp
  overlaps g none potential = ok false
  overlaps g (some end) potential =
      if g.timestamp_overlap
      then ok false
      else (do start ← start_timestamp potential; ok (leb start end))

  -- The NGram that is appended, and `prev_ngram_end_timestamp` after it.
  unfoldable pub appended :
      NGram → Option ℕ → List (Row V) → Result (List (List (ℤ × Row V)) × Option ℕ)
  unfolding end_timestamp
  appended g prev potential =
      if g.timestamp_overlap
      then ok (label g 0 potential ∷ [], prev)
      else (do end ← end_timestamp potential; ok (label g 0 potential ∷ [], some end))

  -- One round of the loop: the items it appends, and the end of the last NGram.
  unfoldable pub round :
      NGram → Option ℕ → List (Row V) → Result (List (List (ℤ × Row V)) × Option ℕ)
  unfolding overlaps appended
  round g prev potential = do
    raise_if (not (is_sorted potential)) not_implemented_error
    skip ← overlaps g prev potential
    let long = length potential == ngram_length g
    let near = ngram_pass_threshold g.delta_threshold potential
    if not skip && long && near then appended g prev potential else ok ([], prev)

  unfoldable pub form_loop :
      NGram → List (Row V) → Option ℕ → List ℕ → Result (List (List (ℤ × Row V)))
  form_loop g rows prev [] = ok []
  form_loop g rows prev (index ∷ indices) = do
    (new, prev') ← round g prev (take (ngram_length g) (drop index rows))
    rest ← form_loop g rows prev' indices
    ok (new ++ rest)

  unfoldable pub form_ngram : NGram → List (Row V) → Result (List (List (ℤ × Row V)))
  form_ngram g rows = form_loop g rows none (range_from 0 (length rows + 1 - ngram_length g))
