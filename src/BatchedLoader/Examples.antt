-- ===== src/BatchedLoader/Examples.antt =====
-- The batched loader over a reader of three rows with two fields, in batches of two.
use Prim.Native.String.{String}
use mathlib.Core.List.{Perm}
use petastorm.Prelude.{
  inl, false, none, some, ℕ, ◌+◌, ◌≡◌, refl, List, [], ◌∷◌, concat, Result, ok, raise, diverged,
  arith,
}
use petastorm.Tensors.{each}
use petastorm.Tensors.Randperm.{Randperm}
use petastorm.Tensors.Samples.{in_place}
use petastorm.BatchedBuffer.Columns.{columns}
use petastorm.BatchedBuffer.Random.{BatchedRandomShufflingBuffer}
use petastorm.BatchedBuffer.Random.Contents.{Holds}
use petastorm.BatchedBuffer.Instances.{random_buffer}
use petastorm.DataLoader.{Sample, keys}
use petastorm.BatchedLoader.{BatchedDataLoader, tensors, yield_batches, pass}
use petastorm.BatchedLoader.Passes.{Tabular}
use petastorm.BatchedLoader.Loaders.{all_dicts, pass_batched_in_order, pass_batched_shuffled}
use petastorm.BatchedLoader.Faults.{endless_batches}

abbrev loader : ℕ → BatchedDataLoader
loader cap = record { batch_size = 2; shuffling_queue_capacity = cap }

-- A row, and a row group of two. The second field is the first one plus 1.
abbrev first : Sample ℕ
first = Sample.row (("id", 7) ∷ ("next", 8) ∷ [])

abbrev rest : List (Sample ℕ)
rest = Sample.columns (("id", 8 ∷ 9 ∷ []) ∷ ("next", 9 ∷ 10 ∷ []) ∷ []) ∷ []

abbrev the_keys : List String
the_keys = "id" ∷ "next" ∷ []

abbrev clean : Sample ℕ → Result (Sample ℕ)
clean s = ok s

abbrev as_tensor : List ℕ → Result (List ℕ)
as_tensor v = ok v

abbrev id : ℕ → ℕ
id x = x

abbrev others : List (ℕ → ℕ)
others = (λ x. x + 1) ∷ []

abbrev groups : List (List ℕ)
groups = (7 ∷ []) ∷ (8 ∷ 9 ∷ []) ∷ []

abbrev draws : ℕ → Randperm
draws n = in_place

tabular : Tabular clean as_tensor (id ∷ others) the_keys 2 (first ∷ rest) groups
unfolding tensors each keys columns
tabular = ((_, refl, refl, refl, omega arith), ((_, refl, refl, refl, omega arith), tt))

pass_batched_in_order_example :
    pass draws clean as_tensor 0 10 (loader 0) (first ∷ rest)
    ≡ ok (all_dicts (id ∷ others) the_keys 2 (concat groups))
pass_batched_in_order_example =
    pass_batched_in_order draws clean as_tensor 0 10 id others the_keys (loader 0) first rest groups
      2 refl (omega arith) tabular

pass_batched_shuffled_example :
    (out : List ℕ) × Perm out (concat groups)
    × (pass draws clean as_tensor 0 10 (loader 3) (first ∷ rest)
        ≡ ok (all_dicts (id ∷ others) the_keys 2 out))
pass_batched_shuffled_example =
    pass_batched_shuffled draws clean as_tensor 0 10 id others the_keys (loader 3) first rest groups
      2 (omega arith) (omega arith) (omega arith) tabular

-- The buffer that the loader makes for a queue of one row and batches of one row, with one row in it.
abbrev one_row : BatchedRandomShufflingBuffer ℕ
one_row = record {
  batch_size = 1;
  extra_capacity = 10;
  items = some ((7 ∷ []) ∷ []);
  shuffling_queue_capacity = 1;
  min_after_dequeue = 0;
  size = 1;
  done_adding = false;
  random_indices = none;
  next_sample_head = 0;
}

one_row-Holds : Holds 0 id [] one_row (7 ∷ [])
unfolding columns
one_row-Holds = record {
  all = 7 ∷ [];
  junk = [];
  stored = inl refl;
  order = (refl, refl);
  fewer = omega arith;
  counted = refl;
}

endless_batches_example :
    yield_batches (random_buffer 0) draws 100 ("id" ∷ []) (record { buffer = one_row; draws = 0 })
    ≡ raise diverged
endless_batches_example =
    endless_batches 0 id [] draws ("id" ∷ []) 100 0 one_row (7 ∷ []) one_row-Holds (omega arith)
      refl refl
