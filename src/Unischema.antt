-- ===== src/Unischema.antt =====
-- petastorm/unischema.py: schemas, and the writing of a row. The fields of a schema and the values of a
-- row are dictionaries in the order of their keys; pyspark's Row is the list of its names and values.
-- The order of the fields is the default one (`_UNISCHEMA_FIELD_ORDER`).
pub mod Writing
pub mod RoundTrip
pub mod Dicts
pub mod Accepted
pub mod Views
mod ExampleObjects
mod Examples
use Prim.Native.String.{String}
use petastorm.Prelude.{
  Bool, true, false, not, ◌&&◌, Option, none, some, List, [], ◌∷◌, ◌++◌, map, if◌then◌else◌, Result,
  ok, raise, raise_if, value_error, ◌>>=◌, ◌>>◌,
}
use petastorm.NGram.Keys.{same_name, mem_name}
use petastorm.DataLoader.{Row}
use petastorm.Codecs.{Objects, UnischemaField, encode, decode}
use petastorm.RowGroupWorker.Rows.{NullableRow, lookup, set_key, get_key, select_cols}

pub record Unischema (D : Type 0) : Type 0 where
  pub name : String
  pub fields : Row (UnischemaField D)

-- `OrderedDict([(f.name, f) for f in fields])`
unfoldable pub ordered_dict :
    {D : Type 0} → Row (UnischemaField D) → List (UnischemaField D) → Row (UnischemaField D)
ordered_dict d [] = d
ordered_dict d (f ∷ fs) = ordered_dict (set_key f.name f d) fs

unfoldable pub init : {D : Type 0} → String → List (UnischemaField D) → Unischema D
unfolding ordered_dict
init name fields = record { name = name; fields = ordered_dict [] fields }

abbrev pub names : {V : Type 0} → Row V → List String
names r = map (λ e. e.0) r

unfoldable pub all_among : List String → List String → Bool
all_among [] others = true
all_among (n ∷ ns) others = mem_name n others && all_among ns others

-- `set(a) == set(b)`
unfoldable pub same_keys : List String → List String → Bool
same_keys a b = all_among a b && all_among b a

module _ {V D : Type 0} where
  unfoldable pub insert_explicit_nulls :
      Row (UnischemaField D) → NullableRow V → Result (NullableRow V)
  insert_explicit_nulls [] row_dict = ok row_dict
  insert_explicit_nulls ((field_name, value) ∷ fields) row_dict =
      elim (lookup row_dict field_name) [
        | some v ↦ insert_explicit_nulls fields row_dict
        | none ↦
            let rest = insert_explicit_nulls fields (set_key field_name none row_dict) in
            if value.nullable then rest else raise value_error
      ]

module _ {V D : Type 0} (o : Objects V D) where
  -- A value that is there, by the codec of its field.
  unfoldable pub encode_value : UnischemaField D → V → Result V
  encode_value field value = elim field.codec [
    | some codec ↦ encode o codec field value
    | none ↦ ok (if o.is_generic value then o.tolist value else value)
  ]

  unfoldable pub encode_field : UnischemaField D → Option V → Result (Option V)
  encode_field field none = if field.nullable then ok none else raise value_error
  encode_field field (some value) = do encoded ← encode_value field value; ok (some encoded)

  unfoldable pub encode_items : Row (UnischemaField D) → NullableRow V → Result (NullableRow V)
  encode_items fields [] = ok []
  encode_items fields ((field_name, value) ∷ items) = do
    schema_field ← get_key fields field_name
    encoded ← encode_field schema_field value
    rest ← encode_items fields items
    ok ((field_name, encoded) ∷ rest)

  unfoldable pub dict_to_spark_row : Unischema D → NullableRow V → Result (NullableRow V)
  unfolding same_keys encode_items
  dict_to_spark_row unischema row_dict = do
    copy_row_dict ← insert_explicit_nulls unischema.fields row_dict
    raise_if (not (same_keys (names copy_row_dict) (names unischema.fields))) value_error
    encoded_dict ← encode_items unischema.fields copy_row_dict
    select_cols encoded_dict (names unischema.fields)

  -- petastorm/utils.py: how `decode_row` decodes a value that is there.
  unfoldable pub decode_field : UnischemaField D → V → Result V
  decode_field field value = elim field.codec [
    | some codec ↦ decode o codec field value
    | none ↦ if o.is_scalar_type field.numpy_dtype then o.cast field.numpy_dtype value else ok value
  ]

  abbrev pub decoders : Row (UnischemaField D) → Row (V → Result V)
  decoders [] = []
  decoders ((n, f) ∷ fields) = (n, decode_field f) ∷ decoders fields
