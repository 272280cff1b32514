-- ===== src/Predicates.antt =====
-- petastorm/predicates.py: the predicates that choose rows by the values of some fields. A value is of
-- any type; what Python's sets, numpy and md5 compute of values is a parameter.
pub mod Split
mod Examples
use Prim.Native.String.{String}
use petastorm.Prelude.{
  ℕ, zero, suc, ◌+◌, ◌-◌, Bool, true, false, not, ◌&&◌, ◌||◌, Option, none, some, List, [], ◌∷◌,
  ◌++◌, map, length, take, leb, ltb, if◌then◌else◌, Result, ok, raise, raise_if, value_error, ◌>>=◌,
  ◌>>◌,
}
use petastorm.Indexing.{get_item}
use petastorm.Tensors.{each}
use petastorm.NGram.{range_from}
use petastorm.NGram.Keys.{mem_name}
use petastorm.DataLoader.{Row}
use petastorm.RowGroupWorker.Rows.{get_key}

pub record PredicateBase (V : Type 0) : Type 0 where
  pub get_fields : List String
  pub do_include : Row V → Result Bool

-- `fields |= p.get_fields()`
union : List String → List String → List String
union fields [] = fields
union fields (f ∷ fs) = union (if mem_name f fields then fields else fields ++ f ∷ []) fs

module _ {V : Type 0} where
  -- `contains v` says whether `v` is in the set of the inclusion values.
  unfoldable pub in_set : (V → Bool) → String → PredicateBase V
  in_set contains predicate_field = record {
    get_fields = predicate_field ∷ [];
    do_include = λ values. (do v ← get_key values predicate_field; ok (contains v));
  }

  any_of : (V → Bool) → List V → Bool
  any_of contains [] = false
  any_of contains (v ∷ vs) = contains v || any_of contains vs

  -- `items v` are the items of `v` if it is iterable.
  unfoldable pub in_intersection : (V → Bool) → (V → Option (List V)) → String → PredicateBase V
  unfolding any_of
  in_intersection contains items predicate_field = record {
    get_fields = predicate_field ∷ [];
    do_include = λ values. (do
      v ← get_key values predicate_field
      elim (items v) [ none ↦ raise value_error | some vs ↦ ok (any_of contains vs) ]);
  }

  and_state : Option V → List V
  and_state none = []
  and_state (some s) = s ∷ []

  unfoldable pub in_lambda : List String → (List V → Result Bool) → Option V → PredicateBase V
  unfolding and_state
  in_lambda predicate_fields predicate_func state_arg = record {
    get_fields = predicate_fields;
    do_include = λ values. (do
      args ← each (get_key values) predicate_fields
      predicate_func (args ++ and_state state_arg));
  }

  unfoldable pub in_negate : PredicateBase V → PredicateBase V
  in_negate predicate = record {
    get_fields = predicate.get_fields;
    do_include = λ values. (do included ← predicate.do_include values; ok (not included));
  }

  all_fields : List String → List (PredicateBase V) → List String
  unfolding union
  all_fields fields [] = fields
  all_fields fields (p ∷ ps) = all_fields (union fields p.get_fields) ps

  unfoldable pub in_reduce : List (PredicateBase V) → (List Bool → Result Bool) → PredicateBase V
  unfolding all_fields
  in_reduce predicate_list reduce_func = record {
    get_fields = all_fields [] predicate_list;
    do_include = λ values. (do
      include_list ← each (λ p. p.do_include values) predicate_list
      reduce_func include_list);
  }

-- The floating point numbers of `in_pseudorandom_split`: the fractions and their sum, and a border,
-- which is a sum times the number of buckets less one, with its comparisons to a bucket's index.
pub record Fractions : Type 1 where
  pub Fraction : Type 0
  pub Border : Type 0
  pub none_of_it : Fraction
  pub sum : List Fraction → Fraction
  pub scale : Fraction → Border
  pub at_or_below : Border → ℕ → Bool
  pub above : ℕ → Border → Bool

module _ {V : Type 0} (fs : Fractions) (string_to_bucket : V → ℕ) where
  unfoldable pub high_borders : List fs.Fraction → List fs.Fraction
  high_borders fraction_list =
      map (λ i. fs.sum (take (i + 1) fraction_list)) (range_from 0 (length fraction_list))

  unfoldable pub low_border : List fs.Fraction → ℕ → Result fs.Fraction
  low_border borders zero = ok fs.none_of_it
  low_border borders (suc i) = get_item borders i

  unfoldable pub in_bucket : String → fs.Border → fs.Border → Row V → Result Bool
  in_bucket predicate_field bucket_low bucket_high values = do
    raise_if (not (mem_name predicate_field (map (λ e. e.0) values))) value_error
    v ← get_key values predicate_field
    let bucket_idx = string_to_bucket v
    ok (fs.at_or_below bucket_low bucket_idx && fs.above bucket_idx bucket_high)

  unfoldable pub in_pseudorandom_split : List fs.Fraction → ℕ → String → Result (PredicateBase V)
  unfolding in_bucket
  in_pseudorandom_split fraction_list subset_index predicate_field = do
    raise_if (leb (length fraction_list) subset_index) value_error
    let borders = high_borders fraction_list
    fraction_low ← low_border borders subset_index
    fraction_high ← get_item borders subset_index
    ok (record {
      get_fields = predicate_field ∷ [];
      do_include = in_bucket predicate_field (fs.scale fraction_low) (fs.scale fraction_high);
    })
