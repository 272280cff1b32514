-- ===== src/Tensors/Samples.antt =====
-- A source of permutations for the tests: it leaves everything in its order.
use mathlib.Core.List.Perm
use petastorm.Prelude.{arith}
use petastorm.NGram.{range_from}
use petastorm.Tensors.Randperm.{Randperm}
use petastorm.Tensors.Permuted.{AllBelow-range, length-range_from}

abbrev pub in_place : Randperm
in_place = record {
  randperm = range_from 0;
  permutes = λ n. Perm.refl (range_from 0 n);
  in_range = λ n. AllBelow-range 0 n n (omega arith);
  counted = length-range_from 0;
}
