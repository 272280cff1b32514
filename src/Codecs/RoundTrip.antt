-- ===== src/Codecs/RoundTrip.antt =====
-- What a codec writes, it reads back.
use petastorm.Prelude.{
  some, Result-cases, attribute_error, value_error, ℕ, ◌≡◌, refl, ap, ◌∙◌, true, ◌||◌, ok, raise,
  arith, Bool-cases, Option-cases, inl, inr,
}
use petastorm.NGram.Keys.{same_name, same_name_iff}
use petastorm.Codecs.{
  Objects, SparkType, Codec, UnischemaField, compressed_image, ndarray, compressed_ndarray, scalar,
  is_grayscale, is_color, check_shape, check_ndarray, encode_image, decode_image, convert,
  encode_scalar, encode, decode,
}
use petastorm.Codecs.Laws.{Laws, stores, is_restored_by}

module _ {V D : Type 0} (o : Objects V D) (laws : Laws o) where
  -- What passes the test of both array codecs is an array whose scalar type is the field's.
  check_ndarray_passes :
      (field : UnischemaField D) (v : V) (u : Unit {0})
      → check_ndarray o field v ≡ ok u
      → (d : D) × (o.is_ndarray v ≡ true)
        × (o.dtype v ≡ some d)
        × (field.numpy_dtype ≡ o.scalar_type d)
  unfolding check_ndarray
  check_ndarray_passes field v u h = elim (Bool-cases (o.is_ndarray v)) [
    | inr e ↦ let g = rw e at h in absurd (cc)
    | inl e ↦ elim (Option-cases (o.dtype v)) [
      | inl n ↦ absurd (ground (arith, h, e, n))
      | inr (d, n) ↦ elim (Bool-cases (o.same_dtype field.numpy_dtype (o.scalar_type d))) [
        | inl same ↦ (d, e, n, laws.same_dtype_eq field.numpy_dtype (o.scalar_type d) same)
        | inr other ↦ absurd (ground (arith, h, e, n, other))
      ]
    ]
  ]

  restores-convert :
      (t : SparkType) (d : D) (v e : V)
      → stores laws t d ≡ true
      → laws.is_instance d v ≡ true
      → convert o t v ≡ ok e
      → o.cast d e ≡ ok v
  unfolding convert
  restores-convert SparkType.byte d v e s i h = laws.cast-int d v e s i h
  restores-convert SparkType.short d v e s i h = laws.cast-int d v e s i h
  restores-convert SparkType.integer d v e s i h = laws.cast-int d v e s i h
  restores-convert SparkType.long d v e s i h = laws.cast-int d v e s i h
  restores-convert SparkType.float_type d v e s i h = laws.cast-float d v e s i h
  restores-convert SparkType.double d v e s i h = laws.cast-float d v e s i h
  restores-convert SparkType.boolean d v e s i h = laws.cast-bool d v e s i h
  restores-convert SparkType.string_type d v e s i h = laws.cast-str d v e s i (ground (arith, h))
  restores-convert SparkType.other d v e s i h =
      let same : v ≡ e = cc in rw (← same) (laws.cast_same d v i)

  restores-image :
      (quality : ℕ) (field : UnischemaField D) (v e : V)
      → laws.is_png_type field.numpy_dtype ≡ true
      → laws.is_png_shape (o.shape v) ≡ true
      → encode_image o ".png" quality field v ≡ ok e
      → decode_image o e ≡ ok v
  unfolding encode_image decode_image check_shape
  restores-image quality field v e p q h = elim (Option-cases (o.dtype v)) [
    | inl n ↦
        let g : encode_image o ".png" quality field v ≡ raise attribute_error =
          rw (encode_image, n) refl in
        cc
    | inr (d, n) ↦ elim (Bool-cases (o.same_dtype field.numpy_dtype d)) [
      | inr other ↦
          let g : encode_image o ".png" quality field v ≡ raise value_error =
            rw (encode_image, n, other) refl in
          cc
      | inl same ↦
          let p' : laws.is_png_type d ≡ true =
            rw (← laws.same_dtype_eq field.numpy_dtype d same) p in
          elim (Bool-cases (is_grayscale (o.shape v))) [
            | inl gray ↦
                let g : o.imencode ".png" quality v ≡ e = ground (arith, h, n, same, gray) in
                let r : o.imdecode e ≡ v =
                  rw (← g) (laws.imdecode-imencode d quality v n p' q (rw gray refl)) in
                rw (r, gray) refl
            | inr not_gray ↦ elim (Bool-cases (is_color (o.shape v))) [
              | inl color ↦
                  let w = o.reverse_channels v in
                  let g : o.imencode ".png" quality w ≡ e =
                    ground (arith, h, n, same, not_gray, color) in
                  let s = laws.shape-reverse_channels v color in
                  let c : (is_grayscale (o.shape w) || is_color (o.shape w)) ≡ true =
                    rw (s, not_gray, color) refl in
                  let r : o.imdecode e ≡ w = rw (← g) (
                    laws.imdecode-imencode d quality w (laws.dtype-reverse_channels v color ∙ n) p'
                      (rw s q) c) in
                  rw (r, s, not_gray, color) (ap ok (laws.reverse_channels_twice v color))
              | inr not_color ↦ absurd (ground (arith, h, n, same, not_gray, not_color))
            ]
          ]
    ]
  ]

  -- What a codec has written, it gives back: an array of any shape, for the array codecs, if its type is
  -- without Python objects; an image, for PNG, if its type and its sizes are such as PNG stores; and a
  -- scalar of the field's type, if the Spark type stores its values.
  pub decode-encode :
      (c : Codec) (field : UnischemaField D) (v e : V)
      → is_restored_by laws c field.numpy_dtype v ≡ true
      → encode o c field v ≡ ok e
      → decode o c field e ≡ ok v
  unfolding encode decode encode_scalar
  decode-encode (compressed_image image_codec quality) field v e r h =
      elim (Bool-cases (same_name image_codec ".png")) [
        | inl png ↦
            let same : image_codec ≡ ".png" = (same_name_iff image_codec ".png").0 png in
            restores-image quality field v e (ground (arith, r)) (ground (arith, r)) (rw same at h)
        | inr other ↦ absurd (ground (arith, r))
      ]
  decode-encode ndarray field v e r h = elim (Result-cases (check_ndarray o field v)) [
    | inl (u, p) ↦
        let g : o.save v ≡ e = ground (arith, h, p) in
        let (d, a, n, t) = check_ndarray_passes field v u p in
        rw (← g) (laws.load-save d v a n (laws.plain-scalar_type d (rw (← t) r)))
    | inr (x, p) ↦ absurd (ground (arith, h, p))
  ]
  decode-encode compressed_ndarray field v e r h = elim (Result-cases (check_ndarray o field v)) [
    | inl (u, p) ↦
        let g : o.savez_compressed v ≡ e = ground (arith, h, p) in
        let (d, a, n, t) = check_ndarray_passes field v u p in
        rw (← g) (laws.load_arr-savez_compressed d v a n (laws.plain-scalar_type d (rw (← t) r)))
    | inr (x, p) ↦ absurd (ground (arith, h, p))
  ]
  decode-encode (scalar t) field v e r h =
      restores-convert t field.numpy_dtype v e (ground (arith, r)) (ground (arith, r))
        (ground (arith, h))
