-- ===== src/RowGroupWorker/Rows.antt =====
-- The rows of a row group as dictionaries; petastorm/utils.py: `decode_row`. A value that is missing
-- (`None`) is `none`.
use Prim.Native.String.{String}
use petastorm.Prelude.{
  Option, none, some, List, [], ◌∷◌, map, if◌then◌else◌, Result, ok, raise, key_error,
  decode_field_error, ◌>>=◌,
}
use petastorm.NGram.Keys.{same_name, mem_name}
use petastorm.DataLoader.{Row}
use petastorm.Tensors.{each}

module _ {V : Type 0} where
  unfoldable pub lookup : Row V → String → Option V
  lookup [] name = none
  lookup ((k, v) ∷ row) name =
      let rest = lookup row name in if same_name k name then some v else rest

  -- `row[name] = value`
  unfoldable pub set_key : String → V → Row V → Row V
  set_key name value [] = (name, value) ∷ []
  set_key name value ((k, v) ∷ row) =
      let rest = set_key name value row in
      if same_name k name then (k, value) ∷ row else (k, v) ∷ rest

  unfoldable pub merge_two_dicts : Row V → Row V → Row V
  merge_two_dicts a [] = a
  merge_two_dicts a ((k, v) ∷ b) = merge_two_dicts (set_key k v a) b

  -- `row[name]`
  unfoldable pub get_key : Row V → String → Result V
  get_key row name = elim (lookup row name) [ none ↦ raise key_error | some v ↦ ok v ]

  -- `_select_cols`: its callers give a set of keys, which never equals the list of a row's keys.
  unfoldable pub select_cols : Row V → List String → Result (Row V)
  select_cols row ks = each (λ k. do v ← get_key row k; ok (k, v)) ks

  unfoldable pub del_key : String → Row V → Row V
  del_key name [] = []
  del_key name ((k, v) ∷ row) =
      let rest = del_key name row in if same_name k name then row else (k, v) ∷ rest

-- A row whose values may be missing.
abbrev pub NullableRow : Type 0 → Type 0
NullableRow V = Row (Option V)

pub record TransformSpec (V : Type 0) : Type 0 where
  pub func : Option (NullableRow V → Result (NullableRow V))
  pub removed_fields : List String

module _ {V : Type 0} where
  unfoldable pub remove_fields : List String → List (NullableRow V) → List (NullableRow V)
  remove_fields [] rows = rows
  remove_fields (field ∷ fields) rows = remove_fields fields (map (del_key field) rows)

  unfoldable pub apply_transform_spec :
      List (NullableRow V) → TransformSpec V → Result (List (NullableRow V))
  apply_transform_spec all_rows spec = do
    rows ← elim spec.func [ none ↦ ok all_rows | some f ↦ each f all_rows ]
    ok (remove_fields spec.removed_fields rows)

  -- The decoding of the field `name` by the schema, which says for each field how its values are
  -- decoded: by its codec, by its numpy type or not at all. Every exception becomes a DecodeFieldError.
  unfoldable pub decode_value : (V → Result V) → Option V → Result (Option V)
  decode_value decode none = ok none
  decode_value decode (some v) = elim (decode v) [
    | ok w ↦ ok (some w)
    | raise e ↦ raise decode_field_error
  ]

  unfoldable pub decode_row : NullableRow V → Row (V → Result V) → Result (NullableRow V)
  decode_row [] schema = ok []
  decode_row ((name, value) ∷ row) schema = elim (lookup schema name) [
    | none ↦ decode_row row schema
    | some decode ↦ do
      decoded ← decode_value decode value
      rest ← decode_row row schema
      ok ((name, decoded) ∷ rest)
  ]

-- The names `names` that are not among `others`.
unfoldable pub without : List String → List String → List String
without [] others = []
without (n ∷ ns) others =
    let rest = without ns others in if mem_name n others then rest else n ∷ rest
