-- ===== src/InMemLoader/Examples.antt =====
-- The loader in memory over a reader of three rows, of which it keeps two.
use Prim.Native.String.{String}
use petastorm.Prelude.{
  ℕ, ◌≡◌, refl, true, List, [], ◌∷◌, map, take, concat, length, Result, ok, raise, runtime_error,
  arith,
}
use petastorm.Tensors.{each}
use petastorm.Tensors.Randperm.{Randperm}
use petastorm.Tensors.Samples.{in_place}
use petastorm.BatchedBuffer.Columns.{columns}
use petastorm.DataLoader.{Sample, keys}
use petastorm.BatchedLoader.{tensors}
use petastorm.BatchedLoader.Passes.{Tabular}
use petastorm.BatchedLoader.Loaders.{all_dicts}
use petastorm.InMemLoader.{InMemBatchedDataLoader, init, iter}
use petastorm.InMemLoader.Epochs.{AllDrawn}
use petastorm.InMemLoader.Passes.{iter-all_epochs}

abbrev first : Sample ℕ
first = Sample.row (("id", 7) ∷ [])

abbrev rest : List (Sample ℕ)
rest = Sample.columns (("id", 8 ∷ 9 ∷ []) ∷ []) ∷ []

abbrev the_keys : List String
the_keys = "id" ∷ []

abbrev clean : Sample ℕ → Result (Sample ℕ)
clean s = ok s

abbrev as_tensor : List ℕ → Result (List ℕ)
as_tensor v = ok v

abbrev id : ℕ → ℕ
id x = x

abbrev groups : List (List ℕ)
groups = (7 ∷ []) ∷ (8 ∷ 9 ∷ []) ∷ []

abbrev by_seed : ℕ → Randperm
by_seed n = in_place

tabular : Tabular clean as_tensor (id ∷ []) the_keys 2 (first ∷ rest) groups
unfolding tensors each keys columns
tabular = ((_, refl, refl, refl, omega arith), ((_, refl, refl, refl, omega arith), tt))

iter-all_epochs_example :
    (d : InMemBatchedDataLoader ℕ) × (init clean as_tensor 0 2 3 5 2 true (first ∷ rest) ≡ ok d)
    × (outs : List (List ℕ)) × ((iter by_seed d).1
        ≡ ok (concat (map (all_dicts (id ∷ []) the_keys 2) outs)))
    × AllDrawn by_seed id [] true outs (take 2 (concat groups))
    × (length outs ≡ 3)
    × ((iter by_seed (iter by_seed d).0).1 ≡ raise runtime_error)
iter-all_epochs_example =
    iter-all_epochs by_seed clean as_tensor 0 id [] the_keys first rest groups 2 2 3 5 2 true
      (omega arith) tabular
