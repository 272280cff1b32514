-- ===== src/Codecs/Laws.antt =====
-- What the codecs rely on of numpy, OpenCV and Python's conversions.
use petastorm.Prelude.{List, ℕ, ◌≡◌, Bool, true, ◌&&◌, ◌||◌, none, some, ok}
use petastorm.NGram.Keys.{same_name}
use petastorm.Codecs.{
  Objects, SparkType, Codec, UnischemaField, compressed_image, ndarray, compressed_ndarray, scalar,
  is_grayscale, is_color,
}

-- `is_instance d v` says that `v` is a value of the type `d`. `is_png_type` and `is_png_shape` are for the
-- types of samples that a PNG file stores as they are (uint8 and uint16) and the sizes that OpenCV takes,
-- `is_plain_type` for the types without Python objects, and `is_basic_type` for those of which Python
-- has the values itself (integers, floats of at most 64 bits, truth values and texts).
pub record Laws {V D : Type 0} (o : Objects V D) : Type 0 where
  pub is_instance : D → V → Bool
  pub is_png_type : D → Bool
  pub is_png_shape : List ℕ → Bool
  pub is_plain_type : D → Bool
  pub is_basic_type : D → Bool
  pub is_integer_type : D → Bool
  pub is_float_type : D → Bool
  pub is_bool_type : D → Bool
  pub is_text_type : D → Bool
  pub same_dtype_eq : (d e : D) → o.same_dtype d e ≡ true → d ≡ e
  -- No objects are in an array whose scalar type is without them.
  pub plain-scalar_type : (d : D) → is_plain_type (o.scalar_type d) ≡ true → is_plain_type d ≡ true
  -- An array without Python objects in it is read as it was saved.
  pub load-save :
      (d : D) (v : V)
      → o.is_ndarray v ≡ true
      → o.dtype v ≡ some d
      → is_plain_type d ≡ true
      → o.load (o.save v) ≡ ok v
  pub load_arr-savez_compressed :
      (d : D) (v : V)
      → o.is_ndarray v ≡ true
      → o.dtype v ≡ some d
      → is_plain_type d ≡ true
      → o.load_arr (o.savez_compressed v) ≡ ok v
  pub shape-reverse_channels :
      (v : V) → is_color (o.shape v) ≡ true → o.shape (o.reverse_channels v) ≡ o.shape v
  pub dtype-reverse_channels :
      (v : V) → is_color (o.shape v) ≡ true → o.dtype (o.reverse_channels v) ≡ o.dtype v
  pub reverse_channels_twice :
      (v : V) → is_color (o.shape v) ≡ true → o.reverse_channels (o.reverse_channels v) ≡ v
  -- PNG is lossless.
  pub imdecode-imencode :
      (d : D) (quality : ℕ) (v : V)
      → o.dtype v ≡ some d
      → is_png_type d ≡ true
      → is_png_shape (o.shape v) ≡ true
      → (is_grayscale (o.shape v) || is_color (o.shape v)) ≡ true
      → o.imdecode (o.imencode ".png" quality v) ≡ v
  -- A value comes back from Python's number, truth value or text when its type is asked for.
  pub cast-int :
      (d : D) (v e : V)
      → is_integer_type d ≡ true
      → is_instance d v ≡ true
      → o.int v ≡ ok e
      → o.cast d e ≡ ok v
  pub cast-float :
      (d : D) (v e : V)
      → is_float_type d ≡ true
      → is_instance d v ≡ true
      → o.float v ≡ ok e
      → o.cast d e ≡ ok v
  pub cast-bool :
      (d : D) (v e : V)
      → is_bool_type d ≡ true
      → is_instance d v ≡ true
      → o.bool v ≡ ok e
      → o.cast d e ≡ ok v
  pub cast-str :
      (d : D) (v e : V)
      → is_text_type d ≡ true
      → is_instance d v ≡ true
      → o.str v ≡ ok e
      → o.cast d e ≡ ok v
  pub cast_same : (d : D) (v : V) → is_instance d v ≡ true → o.cast d v ≡ ok v
  pub cast-tolist :
      (d : D) (v : V)
      → is_basic_type d ≡ true
      → is_instance d v ≡ true
      → o.is_generic v ≡ true
      → o.cast d (o.tolist v) ≡ ok v
  pub generic_type :
      (d : D) (v : V) → is_instance d v ≡ true → o.is_generic v ≡ true → o.is_scalar_type d ≡ true

module _ {V D : Type 0} {o : Objects V D} (laws : Laws o) where
  -- The Spark types that store the values of a numpy type as they are.
  abbrev pub stores : SparkType → D → Bool
  stores SparkType.byte d = laws.is_integer_type d
  stores SparkType.short d = laws.is_integer_type d
  stores SparkType.integer d = laws.is_integer_type d
  stores SparkType.long d = laws.is_integer_type d
  stores SparkType.float_type d = laws.is_float_type d
  stores SparkType.double d = laws.is_float_type d
  stores SparkType.boolean d = laws.is_bool_type d
  stores SparkType.string_type d = laws.is_text_type d
  stores SparkType.other d = true

  -- The values that a field gives back as they were written.
  abbrev pub is_restored_by : Codec → D → V → Bool
  is_restored_by (compressed_image image_codec quality) d v =
      same_name image_codec ".png" && (laws.is_png_type d && laws.is_png_shape (o.shape v))
  is_restored_by ndarray d v = laws.is_plain_type d
  is_restored_by compressed_ndarray d v = laws.is_plain_type d
  is_restored_by (scalar t) d v = stores t d && laws.is_instance d v

  abbrev pub is_restored : UnischemaField D → V → Bool
  is_restored field v = elim field.codec [
    | none ↦ laws.is_basic_type field.numpy_dtype && laws.is_instance field.numpy_dtype v
    | some c ↦ is_restored_by c field.numpy_dtype v
  ]
