-- ===== src/Unischema/Views.antt =====
-- petastorm/unischema.py: `create_schema_view` and `match_unischema_fields`; petastorm/transform.py. Regular
-- expressions are a parameter, and so is the order in which Python lists the members of a set of fields.
pub mod Lookups
pub mod Transformed
pub mod Members
pub mod Chosen
mod Examples
use Prim.Native.String.{String}
use Prim.Native.String as Native
use petastorm.Prelude.{
  ℕ, zero, suc, ◌+◌, Bool, true, false, not, ◌||◌, Option, none, some, List, [], ◌∷◌, ◌++◌, map,
  leb, if◌then◌else◌, Result, ok, raise, raise_if, value_error, ◌>>=◌, ◌>>◌,
}
use petastorm.NGram.Keys.{same_name, mem_name}
use petastorm.DataLoader.{Row}
use petastorm.Tensors.{each}
use petastorm.Codecs.{UnischemaField}
use petastorm.RowGroupWorker.Rows.{get_key}
use petastorm.Unischema.{Unischema, init, names, all_among}

-- What selects fields: a field, of which the name counts, or a regular expression.
pub data Selector (D : Type 0) : Type 0 where
  field : UnischemaField D → Selector D
  pattern : String → Selector D

module _ {D : Type 0} where
  unfoldable pub regex_patterns : List (Selector D) → List String
  regex_patterns [] = []
  regex_patterns (field f ∷ fields) = regex_patterns fields
  regex_patterns (pattern p ∷ fields) = p ∷ regex_patterns fields

  unfoldable pub exact_field_names : List (Selector D) → List String
  exact_field_names [] = []
  exact_field_names (field f ∷ fields) = f.name ∷ exact_field_names fields
  exact_field_names (pattern p ∷ fields) = exact_field_names fields

  unfoldable pub values : Row (UnischemaField D) → List (UnischemaField D)
  values r = map (λ e. e.1) r

-- Whether one of the patterns matches the whole name.
unfoldable pub matches : (String → String → Bool) → List String → String → Bool
matches fullmatch [] name = false
matches fullmatch (p ∷ ps) name = fullmatch p name || matches fullmatch ps name

-- The fields whose names `keep` accepts.
unfoldable pub keep_fields :
    {D : Type 0} → (String → Bool) → Row (UnischemaField D) → List (UnischemaField D)
keep_fields keep [] = []
keep_fields keep ((n, f) ∷ fields) =
    let rest = keep_fields keep fields in if keep n then f ∷ rest else rest

module _ {D : Type 0} (fullmatch : String → String → Bool)
    (set_order : List (UnischemaField D) → List (UnischemaField D)) where
  unfoldable pub match_unischema_fields : Unischema D → List String → List (UnischemaField D)
  match_unischema_fields schema [] = []
  match_unischema_fields schema (p ∷ ps) =
      set_order (keep_fields (matches fullmatch (p ∷ ps)) schema.fields)

  unfoldable pub create_schema_view : Unischema D → List (Selector D) → Result (Unischema D)
  create_schema_view schema fields = do
    raise_if (not (all_among (exact_field_names fields) (names schema.fields))) value_error
    exact_fields ← each (get_key schema.fields) (exact_field_names fields)
    ok (
        init (Native.◌++◌ schema.name "_view")
          (exact_fields ++ match_unischema_fields schema (regex_patterns fields)))

-- `(name, numpy_dtype, shape, nullable)`
pub record EditField (D : Type 0) : Type 0 where
  pub name : String
  pub numpy_dtype : D
  pub shape : List (Option ℕ)
  pub nullable : Bool

pub record TransformSpec (D : Type 0) : Type 0 where
  pub edit_fields : List (EditField D)
  pub removed_fields : List String
  pub selected_fields : Option (List String)

-- `selected_fields.index(name)`, of a name that is in the list
unfoldable pub index : List String → String → ℕ
index [] name = 0
index (n ∷ ns) name = let rest = index ns name in if same_name n name then 0 else rest + 1

module _ {D : Type 0} where
  -- The constructor takes `None` for an argument that is left out.
  unfoldable pub transform_spec :
      Option (List (EditField D))
      → Option (List String)
      → Option (List String)
      → Result (TransformSpec D)
  transform_spec edit_fields (some removed) (some selected) = raise value_error
  transform_spec edit_fields removed_fields selected_fields = ok (record {
    edit_fields = elim edit_fields [ none ↦ [] | some es ↦ es ];
    removed_fields = elim removed_fields [ none ↦ [] | some names ↦ names ];
    selected_fields = selected_fields;
  })

  unfoldable pub edited_unischema_field : EditField D → UnischemaField D
  edited_unischema_field e = record {
    name = e.name;
    numpy_dtype = e.numpy_dtype;
    shape = e.shape;
    codec = none;
    nullable = e.nullable;
  }

  -- Python's `sorted` by a key, which is stable.
  unfoldable pub insert :
      (UnischemaField D → ℕ) → UnischemaField D → List (UnischemaField D) → List (UnischemaField D)
  insert key f [] = f ∷ []
  insert key f (g ∷ gs) =
      let rest = insert key f gs in if leb (key f) (key g) then f ∷ g ∷ gs else g ∷ rest

  unfoldable pub sorted : (UnischemaField D → ℕ) → List (UnischemaField D) → List (UnischemaField D)
  unfolding insert
  sorted key [] = []
  sorted key (f ∷ fs) = insert key f (sorted key fs)

  unfoldable pub selected : List String → List (UnischemaField D) → List (UnischemaField D)
  selected names [] = []
  selected names (f ∷ fs) =
      let rest = selected names fs in if mem_name f.name names then f ∷ rest else rest

  unfoldable pub transform_schema : Unischema D → TransformSpec D → Unischema D
  unfolding keep_fields edited_unischema_field selected sorted index
  transform_schema schema spec =
      let exclude_fields =
        map (λ (e : EditField D). e.name) spec.edit_fields ++ spec.removed_fields in
      let kept = keep_fields (λ k. not (mem_name k exclude_fields)) schema.fields in
      let fields = kept ++ map edited_unischema_field spec.edit_fields in
      init (Native.◌++◌ schema.name "_transformed") (elim spec.selected_fields [
        | none ↦ fields
        | some names ↦ sorted (λ f. index names f.name) (selected names fields)
      ])
