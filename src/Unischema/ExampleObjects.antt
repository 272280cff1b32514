-- ===== src/Unischema/ExampleObjects.antt =====
-- Objects for the examples: a value is an integer of numpy or of Python, an array of bytes, or what is
-- stored of an array.
use petastorm.Prelude.{
  ℕ, ◌≡◌, refl, ap, Bool, true, false, Option, none, some, List, [], ◌∷◌, Result, ok, raise,
  value_error, type_error,
}
use petastorm.Codecs.{Objects}
use petastorm.Codecs.Laws.{Laws}

pub data Kind : Type 0 where
  int64 uint8 : Kind

pub data Value : Type 0 where
  int64_of int_of : ℕ → Value
  array : List ℕ → List ℕ → Value
  file png : Value → Value

-- The items of each group of three, the other way round.
abbrev pub swap : List ℕ → List ℕ
swap [] = []
swap (a ∷ []) = a ∷ []
swap (a ∷ b ∷ []) = a ∷ b ∷ []
swap (a ∷ b ∷ c ∷ r) = c ∷ b ∷ a ∷ swap r

swap_twice : (l : List ℕ) → swap (swap l) ≡ l
swap_twice [] = refl
swap_twice (a ∷ []) = refl
swap_twice (a ∷ b ∷ []) = refl
swap_twice (a ∷ b ∷ c ∷ r) = ap (λ (l : List ℕ). a ∷ b ∷ c ∷ l) (swap_twice r)

abbrev pub same_kind : Kind → Kind → Bool
same_kind int64 int64 = true
same_kind uint8 uint8 = true
same_kind _ _ = false

abbrev pub shape_of : Value → List ℕ
shape_of (array shape items) = shape
shape_of _ = []

abbrev pub is_array : Value → Bool
is_array (array shape items) = true
is_array _ = false

abbrev pub is_int64 : Value → Bool
is_int64 (int64_of n) = true
is_int64 _ = false

abbrev pub dtype_of : Value → Option Kind
dtype_of (array shape items) = some uint8
dtype_of (int64_of n) = some int64
dtype_of _ = none

abbrev pub to_int : Value → Result Value
to_int (int64_of n) = ok (int_of n)
to_int (int_of n) = ok (int_of n)
to_int _ = raise type_error

abbrev pub int64_cast : Value → Result Value
int64_cast (int64_of n) = ok (int64_of n)
int64_cast (int_of n) = ok (int64_of n)
int64_cast _ = raise type_error

abbrev pub cast_to : Kind → Value → Result Value
cast_to int64 v = int64_cast v
cast_to uint8 v = raise type_error

abbrev pub plain : Value → Value
plain (int64_of n) = int_of n
plain v = v

abbrev pub read : Value → Result Value
read (file v) = ok v
read _ = raise value_error

abbrev pub from_png : Value → Value
from_png (png v) = v
from_png v = v

abbrev pub reversed : Value → Value
reversed (array shape items) = array shape (swap items)
reversed v = v

abbrev pub objects : Objects Value Kind
objects = record {
  same_dtype = same_kind;
  dtype = dtype_of;
  shape = shape_of;
  scalar_type = λ d. d;
  is_ndarray = is_array;
  has_len = is_array;
  is_str = λ v. false;
  is_generic = is_int64;
  tolist = plain;
  save = file;
  load = read;
  savez_compressed = file;
  load_arr = read;
  reverse_channels = reversed;
  imencode = λ ext quality v. png v;
  imdecode = from_png;
  int = to_int;
  float = λ v. raise type_error;
  bool = λ v. raise type_error;
  str = λ v. raise type_error;
  cast = cast_to;
  is_scalar_type = λ d. true;
}

abbrev pub instance_of : Kind → Value → Bool
instance_of int64 v = is_int64 v
instance_of uint8 v = false

abbrev pub is_int64_type : Kind → Bool
is_int64_type int64 = true
is_int64_type uint8 = false

abbrev pub is_uint8 : Kind → Bool
is_uint8 int64 = false
is_uint8 uint8 = true

pub same_kind_eq : (d e : Kind) → same_kind d e ≡ true → d ≡ e
same_kind_eq int64 int64 h = refl
same_kind_eq uint8 uint8 h = refl
same_kind_eq int64 uint8 h = cc
same_kind_eq uint8 int64 h = cc

pub reversed_shape : (v : Value) → shape_of (reversed v) ≡ shape_of v
reversed_shape (array shape items) = refl
reversed_shape (int64_of n) = refl
reversed_shape (int_of n) = refl
reversed_shape (file v) = refl
reversed_shape (png v) = refl

pub reversed_dtype : (v : Value) → dtype_of (reversed v) ≡ dtype_of v
reversed_dtype (array shape items) = refl
reversed_dtype (int64_of n) = refl
reversed_dtype (int_of n) = refl
reversed_dtype (file v) = refl
reversed_dtype (png v) = refl

pub reversed_twice : (v : Value) → reversed (reversed v) ≡ v
reversed_twice (array shape items) = ap (array shape) (swap_twice items)
reversed_twice (int64_of n) = refl
reversed_twice (int_of n) = refl
reversed_twice (file v) = refl
reversed_twice (png v) = refl

pub int_and_back :
    (d : Kind) (v e : Value) → instance_of d v ≡ true → to_int v ≡ ok e → cast_to d e ≡ ok v
int_and_back int64 (int64_of n) e i h = let same : int_of n ≡ e = cc in rw (← same) refl
int_and_back int64 (int_of n) e i h = cc
int_and_back int64 (array shape items) e i h = cc
int_and_back int64 (file v) e i h = cc
int_and_back int64 (png v) e i h = cc
int_and_back uint8 v e i h = cc

pub cast_instance : (d : Kind) (v : Value) → instance_of d v ≡ true → cast_to d v ≡ ok v
cast_instance int64 (int64_of n) i = refl
cast_instance int64 (int_of n) i = cc
cast_instance int64 (array shape items) i = cc
cast_instance int64 (file v) i = cc
cast_instance int64 (png v) i = cc
cast_instance uint8 v i = cc

pub plain_and_back : (d : Kind) (v : Value) → instance_of d v ≡ true → cast_to d (plain v) ≡ ok v
plain_and_back int64 (int64_of n) i = refl
plain_and_back int64 (int_of n) i = cc
plain_and_back int64 (array shape items) i = cc
plain_and_back int64 (file v) i = cc
plain_and_back int64 (png v) i = cc
plain_and_back uint8 v i = cc

pub other_kind : (d : Kind) (v e : Value) → false ≡ true → cast_to d e ≡ ok v
other_kind d v e h = cc

abbrev pub laws : Laws objects
laws = record {
  is_instance = instance_of;
  is_png_type = is_uint8;
  is_png_shape = λ shape. true;
  is_plain_type = is_uint8;
  is_basic_type = is_int64_type;
  is_integer_type = is_int64_type;
  is_float_type = λ d. false;
  is_bool_type = λ d. false;
  is_text_type = λ d. false;
  same_dtype_eq = same_kind_eq;
  plain-scalar_type = λ d h. h;
  load-save = λ d v a b c. refl;
  load_arr-savez_compressed = λ d v a b c. refl;
  shape-reverse_channels = λ v h. reversed_shape v;
  dtype-reverse_channels = λ v h. reversed_dtype v;
  reverse_channels_twice = λ v h. reversed_twice v;
  imdecode-imencode = λ d quality v a b s c. refl;
  cast-int = λ d v e a i h. int_and_back d v e i h;
  cast-float = λ d v e a i h. other_kind d v e a;
  cast-bool = λ d v e a i h. other_kind d v e a;
  cast-str = λ d v e a i h. other_kind d v e a;
  cast_same = cast_instance;
  cast-tolist = λ d v b i g. plain_and_back d v i;
  generic_type = λ d v i g. refl;
}
