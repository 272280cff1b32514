-- ===== src/Unischema/Views/Chosen.antt =====
-- The fields of a schema view, by their names.
use Prim.Native.String.{String}
use Prim.Native.String as Native
use petastorm.Prelude.{List}
use petastorm.Unischema.{Unischema}
