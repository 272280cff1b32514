-- ===== src/Codecs.antt =====
-- petastorm/codecs.py: the codecs of a dataset's fields. Python's values are a type `V`, and numpy's
-- types a type `D`. What numpy, OpenCV and Python's conversions make of a value is the parameter
-- `Objects`.
pub mod Laws
pub mod RoundTrip
use Prim.Native.String.{String}
use petastorm.Prelude.{
  ltb, ℕ, zero, suc, Bool, true, false, not, ◌&&◌, ◌||◌, Option, none, some, List, [], ◌∷◌, length,
  get_elem?, ◌==◌, if◌then◌else◌, Result, ok, raise, raise_if, value_error, type_error,
  attribute_error, ◌>>=◌, ◌>>◌,
}

pub record Objects (V D : Type 0) : Type 0 where
  pub same_dtype : D → D → Bool
  -- `value.dtype`, and `value.shape`, which is `()` for a numpy scalar
  pub dtype : V → Option D
  pub shape : V → List ℕ
  -- `dtype.type`
  pub scalar_type : D → D
  pub is_ndarray : V → Bool
  pub has_len : V → Bool
  pub is_str : V → Bool
  pub is_generic : V → Bool
  pub tolist : V → V
  -- `np.save`, `np.savez_compressed` and reading them again
  pub save : V → V
  pub load : V → Result V
  pub savez_compressed : V → V
  pub load_arr : V → Result V
  -- `value[:, :, (2, 1, 0)]`, `cv2.imencode` and `cv2.imdecode`
  pub reverse_channels : V → V
  pub imencode : String → ℕ → V → V
  pub imdecode : V → V
  pub int : V → Result V
  pub float : V → Result V
  pub bool : V → Result V
  pub str : V → Result V
  -- `numpy_dtype(value)`, and whether a type is one of numpy's scalars or Decimal
  pub cast : D → V → Result V
  pub is_scalar_type : D → Bool

pub data SparkType : Type 0 where
  byte short integer long float_type double boolean string_type other : SparkType

-- A codec of images has the extension of its format, with the dot, and its quality.
pub data Codec : Type 0 where
  compressed_image : String → ℕ → Codec
  ndarray compressed_ndarray : Codec
  scalar : SparkType → Codec

pub record UnischemaField (D : Type 0) : Type 0 where
  pub name : String
  pub numpy_dtype : D
  pub shape : List (Option ℕ)
  pub codec : Option Codec
  pub nullable : Bool

-- A size that is `None` or 0 is false.
unfoldable pub compliant_size : ℕ → Option ℕ → Bool
compliant_size a none = true
compliant_size a (some b) = (a == 0) || ((b == 0) || (a == b))

unfoldable pub is_compliant_shape : List ℕ → List (Option ℕ) → Bool
is_compliant_shape [] [] = true
is_compliant_shape [] (b ∷ bs) = false
is_compliant_shape (a ∷ as_) [] = false
is_compliant_shape (a ∷ as_) (b ∷ bs) = compliant_size a b && is_compliant_shape as_ bs

-- `(H, W)` and `(H, W, 3)`
unfoldable pub is_grayscale : List ℕ → Bool
is_grayscale shape = length shape == 2

unfoldable pub is_color : List ℕ → Bool
is_color shape = elim (get_elem? shape 2) [
  | none ↦ false
  | some c ↦ (length shape == 3) && (c == 3)
]

unfoldable pub is_unsized : List ℕ → Bool
is_unsized [] = true
is_unsized (d ∷ ds) = false

module _ {V D : Type 0} (o : Objects V D) where
  unfoldable pub check_shape : UnischemaField D → V → Result (Unit {0})
  check_shape field value =
      raise_if (not (is_compliant_shape (o.shape value) field.shape)) value_error

  -- `encode` of both codecs for arrays, up to the writing of the array.
  unfoldable pub check_ndarray : UnischemaField D → V → Result (Unit {0})
  unfolding check_shape
  check_ndarray field value =
      if o.is_ndarray value
      then (elim (o.dtype value) [
        | none ↦ raise attribute_error
        | some d ↦
            raise_if (not (o.same_dtype field.numpy_dtype (o.scalar_type d))) value_error
            >> check_shape field value
      ])
      else raise value_error

  unfoldable pub encode_image : String → ℕ → UnischemaField D → V → Result V
  unfolding check_shape is_grayscale is_color
  encode_image image_codec quality field value = elim (o.dtype value) [
    | none ↦ raise attribute_error
    | some d ↦ do
      raise_if (not (o.same_dtype field.numpy_dtype d)) value_error
      check_shape field value
      image_bgr_or_gray ←
          if is_grayscale (o.shape value)
          then ok value
          else if is_color (o.shape value)
          then ok (o.reverse_channels value)
          else raise value_error
      ok (o.imencode image_codec quality image_bgr_or_gray)
  ]

  unfoldable pub decode_image : V → Result V
  unfolding is_grayscale is_color
  decode_image value =
      let image_bgr_or_gray = o.imdecode value in
      if is_grayscale (o.shape image_bgr_or_gray)
      then ok image_bgr_or_gray
      else if is_color (o.shape image_bgr_or_gray)
      then ok (o.reverse_channels image_bgr_or_gray)
      else raise value_error

  -- The conversion that a Spark type asks for.
  unfoldable pub convert : SparkType → V → Result V
  convert SparkType.byte value = o.int value
  convert SparkType.short value = o.int value
  convert SparkType.integer value = o.int value
  convert SparkType.long value = o.int value
  convert SparkType.float_type value = o.float value
  convert SparkType.double value = o.float value
  convert SparkType.boolean value = o.bool value
  convert SparkType.string_type value = if o.is_str value then o.str value else raise value_error
  convert SparkType.other value = ok value

  unfoldable pub encode_scalar : SparkType → UnischemaField D → V → Result V
  unfolding convert is_unsized
  encode_scalar spark_type field value =
      let unsized_numpy_array = o.is_ndarray value && is_unsized (o.shape value) in
      do
        raise_if (not unsized_numpy_array && (o.has_len value && not (o.is_str value))) type_error
        raise_if (ltb 0 (length field.shape)) value_error
        convert spark_type value

  unfoldable pub encode : Codec → UnischemaField D → V → Result V
  unfolding encode_image check_ndarray encode_scalar
  encode (compressed_image image_codec quality) field value =
      encode_image image_codec quality field value
  encode ndarray field value = check_ndarray field value >> ok (o.save value)
  encode compressed_ndarray field value = check_ndarray field value >> ok (o.savez_compressed value)
  encode (scalar spark_type) field value = encode_scalar spark_type field value

  unfoldable pub decode : Codec → UnischemaField D → V → Result V
  unfolding decode_image
  decode (compressed_image image_codec quality) field value = decode_image value
  decode ndarray field value = o.load value
  decode compressed_ndarray field value = o.load_arr value
  decode (scalar spark_type) field value = o.cast field.numpy_dtype value
