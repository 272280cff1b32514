-- ===== src/Unischema/RoundTrip.antt =====
-- What is written by a schema is read back by it.
use Prim.Native.String.{String}
use petastorm.Prelude.{
  ◌≡◌, refl, ap, ◌∙◌, sym, true, Option, none, some, map, Result, ok, arith, Bool-cases,
  Option-cases, Result-cases, inl, inr,
}
use petastorm.NGram.Keys.{mem_name}
use petastorm.DataLoader.{Row}
use petastorm.Codecs.{Objects, UnischemaField}
use petastorm.Codecs.Laws.{Laws, is_restored}
use petastorm.Codecs.RoundTrip.{decode-encode}
use petastorm.RowGroupWorker.Rows.{NullableRow, lookup, decode_value, decode_row}
use petastorm.Unischema.{
  Unischema, names, insert_explicit_nulls, encode_value, encode_field, encode_items,
  dict_to_spark_row, decode_field, decoders,
}
use petastorm.Unischema.Writing.{
  mem_name-lookup, nulls_keep, nulls_add, encode_items-each, lookup-decoders, value_of,
  decode_selected,
}

module _ {V D : Type 0} (o : Objects V D) (laws : Laws o) where
  decode_field-encode_value :
      (f : UnischemaField D) (v e : V)
      → is_restored laws f v ≡ true
      → encode_value o f v ≡ ok e
      → decode_field o f e ≡ ok v
  unfolding encode_value decode_field
  decode_field-encode_value f v e fits h = elim (Option-cases f.codec) [
    | inr (c, coded) ↦
        rw (decode_field, coded)
          (decode-encode o laws c f v e (ground (arith, fits, coded)) (ground (arith, h, coded)))
    | inl plain ↦
        let i : laws.is_instance f.numpy_dtype v ≡ true = ground (arith, fits, plain) in
        let b : laws.is_basic_type f.numpy_dtype ≡ true = ground (arith, fits, plain) in
        elim (Bool-cases (o.is_generic v)) [
          | inl generic ↦
              let same : o.tolist v ≡ e = ground (arith, h, plain, generic) in
              let number = laws.generic_type f.numpy_dtype v i generic in
              rw (decode_field, plain, number, ← same)
                (laws.cast-tolist f.numpy_dtype v b i generic)
          | inr other ↦
              let same : v ≡ e = ground (arith, h, plain, other) in
              elim (Bool-cases (o.is_scalar_type f.numpy_dtype)) [
                | inl number ↦
                    rw (decode_field, plain, number, ← same) (laws.cast_same f.numpy_dtype v i)
                | inr no_number ↦ rw (decode_field, plain, no_number) (ap ok (sym same))
              ]
        ]
  ]

  decode_field-encode_field :
      (f : UnischemaField D) (v e : Option V)
      → ((u : V) → v ≡ some u → is_restored laws f u ≡ true)
      → encode_field o f v ≡ ok e
      → decode_value (decode_field o f) e ≡ ok v
  unfolding encode_field decode_value encode_value decode_field
  decode_field-encode_field f none e fits h =
      let same : none ≡ e = ground (arith, h) in rw (← same) refl
  decode_field-encode_field f (some v) e fits h = elim (Result-cases (encode_value o f v)) [
    | inr (x, fails) ↦ absurd (ground (arith, h, fails))
    | inl (w, gives) ↦
        let same : some w ≡ e = ground (arith, h, gives) in
        let back : decode_field o f w ≡ ok v =
          decode_field-encode_value f v w (fits v refl) gives in
        rw (← same) (rw (decode_value, back) refl)
  ]

  -- A field of the schema: its value is written, and decodes to the value of the row.
  written_back :
      (fields : Row (UnischemaField D)) (row full encoded : NullableRow V)
      → ((n : String) (f : UnischemaField D) (v : V)
          → lookup fields n ≡ some f
          → lookup row n ≡ some (some v)
          → is_restored laws f v ≡ true)
      → insert_explicit_nulls fields row ≡ ok full
      → encode_items o fields full ≡ ok encoded
      → (n : String) → mem_name n (names fields) ≡ true
      → (e : Option V) × (g : V → Result V) × (lookup encoded n ≡ some e)
        × (lookup (decoders o fields) n ≡ some g)
        × (decode_value g e ≡ ok (value_of row n))
  written_back fields row full encoded fits filled written n i =
      let (k, known) = mem_name-lookup fields n i in
      elim (Option-cases (lookup row n)) [
        | inl missing ↦
            let empty : value_of row n ≡ none = rw (value_of, missing) refl in
            let there = nulls_add fields row full n k filled missing known in
            let (f, e, a, b, c) = encode_items-each o fields full encoded n none written there in
            (
              e,
              decode_field o f,
              c,
              lookup-decoders o fields n f a,
              decode_field-encode_field f none e (λ u x. absurd (cc)) b ∙ ap ok (sym empty),
            )
        | inr (v, given) ↦
            let value : value_of row n ≡ v = rw (value_of, given) refl in
            let there = nulls_keep fields row full n v filled given in
            let (f, e, a, b, c) = encode_items-each o fields full encoded n v written there in
            (
              e,
              decode_field o f,
              c,
              lookup-decoders o fields n f a,
              decode_field-encode_field f v e (λ u x. fits n f u a (given ∙ ap some x)) b
                  ∙ ap ok (sym value),
            )
      ]

  -- A row that is written by a schema and read back by it, as long as its values are such as their codecs
  -- give back: the row that is read has exactly the fields of the schema, in the order of the schema,
  -- with the values that were given, and `None` for the nullable fields that were left out.
  pub decode_row-dict_to_spark_row :
      (u : Unischema D) (row out : NullableRow V)
      → ((n : String) (f : UnischemaField D) (v : V)
          → lookup u.fields n ≡ some f
          → lookup row n ≡ some (some v)
          → is_restored laws f v ≡ true)
      → dict_to_spark_row o u row ≡ ok out
      → decode_row out (decoders o u.fields) ≡ ok (map (λ n. (n, value_of row n)) (names u.fields))
  unfolding dict_to_spark_row
  decode_row-dict_to_spark_row u row out fits h =
      elim (Result-cases (insert_explicit_nulls u.fields row)) [
        | inr (x, fails) ↦ absurd (ground (arith, h, fails))
        | inl (full, filled) ↦ elim (Result-cases (encode_items o u.fields full)) [
          | inr (x, fails) ↦ absurd (ground (arith, h, filled, fails))
          | inl (encoded, written) ↦
              decode_selected o (decoders o u.fields) encoded row (names u.fields) out
                (written_back u.fields row full encoded fits filled written)
                (ground (arith, h, filled, written))
        ]
      ]
