-- ===== src/Unischema/Views/Examples.antt =====
-- Views and transformations of a schema with two fields; the types are numbers.
use Prim.Native.String.{String}
use mathlib.Core.List.Permᴰ as Permutation
use petastorm.Prelude.{ℕ, ◌≡◌, true, false, none, List, [], ◌∷◌}
use petastorm.Codecs.{UnischemaField}
use petastorm.RowGroupWorker.Rows.{lookup}
use petastorm.Unischema.{Unischema, init}
use petastorm.Unischema.Dicts.{init-IsDict}
use petastorm.Unischema.Views.{Selector, TransformSpec, transform_schema}
use petastorm.Unischema.Views.Lookups.{init-IsNamed}
use petastorm.Unischema.Views.Transformed.{edited, lookup-transform_schema}

abbrev small : String → ℕ → UnischemaField ℕ
small name dtype = record {
  name = name;
  numpy_dtype = dtype;
  shape = [];
  codec = none;
  nullable = false;
}

abbrev all_fields : List (UnischemaField ℕ)
all_fields = small "a" 0 ∷ small "b" 1 ∷ small "c" 2 ∷ []

abbrev schema : Unischema ℕ
schema = init "letters" all_fields

-- A pattern matches the name that it spells. The field that selects "b" has another type.
abbrev chosen : List (Selector ℕ)
chosen = Selector.field (small "b" 7) ∷ Selector.pattern "a" ∷ []

-- "b" becomes nullable, "a" is removed.
abbrev spec : TransformSpec ℕ
spec = record {
  edit_fields = record { name = "b"; numpy_dtype = 1; shape = []; nullable = true } ∷ [];
  removed_fields = "a" ∷ [];
  selected_fields = none;
}

lookup-transform_schema_example :
    lookup (transform_schema schema spec).fields "b" ≡ edited schema spec "b"
lookup-transform_schema_example =
    lookup-transform_schema schema spec "b" (init-IsDict "letters" all_fields)
      (init-IsNamed "letters" all_fields)
