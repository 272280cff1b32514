-- ===== src/Unischema/Examples.antt =====
-- A schema with an id, an optional array whose size is free, and an image.
use Prim.Native.String.{String}
use petastorm.Prelude.{
  inr, inl, Bool-cases, ◌≡◌, refl, true, false, none, some, [], ◌∷◌, map, ok, arith,
}
use petastorm.NGram.Keys.{same_name, same_name_iff}
use petastorm.Codecs.{
  UnischemaField, Codec, SparkType, is_grayscale, is_color, is_unsized, compliant_size,
  is_compliant_shape, check_shape, encode_image, convert, encode_scalar, encode, decode,
}
use petastorm.Codecs.Laws.{is_restored}
use petastorm.Codecs.RoundTrip.{decode-encode}
use petastorm.RowGroupWorker.Rows.{NullableRow, lookup, set_key, decode_row}
use petastorm.Unischema.{
  Unischema, ordered_dict, init, names, encode_value, encode_field, dict_to_spark_row, decoders,
}
use petastorm.Unischema.Writing.{value_of}
use petastorm.Unischema.Accepted.{IsComplete, written_and_read}
use petastorm.Unischema.Dicts.{init-IsDict}
use petastorm.Unischema.ExampleObjects.{
  Kind, int64, uint8, Value, int64_of, int_of, array, png, reversed, objects, laws,
}

abbrev id_field : UnischemaField Kind
id_field = record {
  name = "id";
  numpy_dtype = int64;
  shape = [];
  codec = some (Codec.scalar SparkType.long);
  nullable = false;
}

abbrev image_field : UnischemaField Kind
image_field = record {
  name = "image";
  numpy_dtype = uint8;
  shape = none ∷ some 1 ∷ some 3 ∷ [];
  codec = some (Codec.compressed_image ".png" 80);
  nullable = false;
}

abbrev extra_field : UnischemaField Kind
extra_field = record {
  name = "extra";
  numpy_dtype = uint8;
  shape = none ∷ [];
  codec = some Codec.ndarray;
  nullable = true;
}

abbrev schema : Unischema Kind
schema = init "example" (id_field ∷ extra_field ∷ image_field ∷ [])

abbrev pixel : Value
pixel = array (1 ∷ 1 ∷ 3 ∷ []) (10 ∷ 20 ∷ 30 ∷ [])

abbrev given : NullableRow Value
given = ("image", some pixel) ∷ ("id", some (int64_of 7)) ∷ []

decode-encode_example :
    decode objects (Codec.compressed_image ".png" 80) image_field (png (reversed pixel)) ≡ ok pixel
unfolding encode encode_image check_shape is_grayscale is_color is_compliant_shape compliant_size
decode-encode_example =
    decode-encode objects laws (Codec.compressed_image ".png" 80) image_field pixel
      (png (reversed pixel)) refl refl

fits_all :
    (n : String) (f : UnischemaField Kind) (v : Value)
    → lookup schema.fields n ≡ some f
    → lookup given n ≡ some (some v)
    → is_restored laws f v ≡ true
unfolding init ordered_dict set_key lookup
fits_all n f v a b = elim (Bool-cases (same_name "image" n)) [
  | inl image ↦
      let e = (same_name_iff "image" n).0 image in
      let f' : some image_field ≡ some f = rw (← e) at a in
      let f_e : image_field ≡ f = cc in rw (← f_e) refl
  | inr no_image ↦ elim (Bool-cases (same_name "id" n)) [
    | inl id ↦
        let e = (same_name_iff "id" n).0 id in
        let f' : some id_field ≡ some f = rw (← e) at a in
        let v' : some (some (int64_of 7)) ≡ some (some v) = rw (← e) at b in
        let f_e : id_field ≡ f = cc in let v_e : int64_of 7 ≡ v = cc in rw (← f_e, ← v_e) refl
    | inr no_id ↦ absurd (ground (arith, b, no_image, no_id))
  ]
]

complete : IsComplete objects schema.fields given
unfolding init ordered_dict set_key lookup
complete n f a b = elim (Bool-cases (same_name "extra" n)) [
  | inl extra ↦
      let e = (same_name_iff "extra" n).0 extra in
      let f' : some extra_field ≡ some f = rw (← e) at a in
      let f_e : extra_field ≡ f = cc in rw (← f_e) refl
  | inr no_extra ↦ ground (arith, a, b, no_extra)
]

written_and_read_example :
    (out : NullableRow Value) × (dict_to_spark_row objects schema given ≡ ok out)
    × (decode_row out (decoders objects schema.fields)
        ≡ ok (map (λ n. (n, value_of given n)) (names schema.fields)))
unfolding init ordered_dict set_key lookup encode encode_image check_shape is_grayscale is_color
    is_compliant_shape compliant_size encode_field encode_value encode_scalar convert is_unsized
written_and_read_example =
    written_and_read objects laws schema given
      (init-IsDict "example" (id_field ∷ extra_field ∷ image_field ∷ [])) complete
      (
        (image_field, some (png (reversed pixel)), refl, refl),
        ((id_field, some (int_of 7), refl, refl), tt),
      )
      fits_all
