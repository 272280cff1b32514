-- ===== src/DataLoader/Examples.antt =====
-- The data loader over a reader of three rows, in batches of two.
use Prim.Native.String.{String}
use mathlib.Core.List.{Perm}
use petastorm.Prelude.{
  ℕ, ◌≤◌, ◌≡◌, refl, none, List, [], ◌∷◌, map, Result, ok, raise, value_error, arith,
}
use petastorm.ShufflingBuffer.Source.{Randint}
use petastorm.ShufflingBuffer.Samples.{lowest}
use petastorm.ShufflingBuffer.Noop
use petastorm.ShufflingBuffer.Instances.{noop_retrieve}
use petastorm.DataLoader.{
  Row, Sample, Item, DataLoader, keys, group, pass, iter, to_row, iter_impl, yield_batches, feed,
  last_batch,
}
use petastorm.DataLoader.Chunks.{chunk}
use petastorm.DataLoader.Passes.{Accepted, all_items}
use petastorm.DataLoader.Loaders.{all_batches, pass_in_order, pass_shuffled}
use petastorm.DataLoader.Faults.{second_pass, capacity_one}

abbrev loader : ℕ → DataLoader ℕ
loader cap = record {
  batch_size = 2;
  shuffling_queue_capacity = cap;
  batch_acc = [];
  in_iter = none;
  error = none;
}

abbrev id_row : ℕ → Row ℕ
id_row n = ("id", n) ∷ []

-- A row, and a row group of two.
abbrev first : Sample ℕ
first = Sample.row (id_row 7)

abbrev rest : List (Sample ℕ)
rest = Sample.columns (("id", 8 ∷ 9 ∷ []) ∷ []) ∷ []

abbrev the_keys : List String
the_keys = "id" ∷ []

abbrev clean : Sample ℕ → Result (Sample ℕ)
clean s = ok s

abbrev draws : ℕ → Randint
draws n = lowest

abbrev batch : List (Row ℕ) → List (Row ℕ)
batch rows = rows

accepted : (limit : ℕ) → 2 ≤ limit → Accepted clean the_keys limit (first ∷ rest)
unfolding keys group
accepted limit h = ((_, refl, refl, omega arith), ((_, refl, refl, h), tt))

in_order :
    pass batch draws clean 10 (loader 0) (first ∷ rest)
    ≡ ok ((id_row 7 ∷ id_row 8 ∷ []) ∷ (id_row 9 ∷ []) ∷ [], id_row 9 ∷ [])
unfolding pass iter_impl feed keys group yield_batches last_batch to_row Noop.init Noop.add_many
    Noop.can_retrieve Noop.finish Noop.size Noop.retrieve noop_retrieve
in_order = refl

pass_in_order_example :
    pass batch draws clean 10 (loader 0) (first ∷ rest)
    ≡ ok (
      all_batches batch draws clean 10 the_keys 2 []
          (map (to_row the_keys) (all_items clean (first ∷ rest))),
      (chunk 2 [] (map (to_row the_keys) (all_items clean (first ∷ rest)))).1,
    )
pass_in_order_example =
    pass_in_order batch draws clean 10 the_keys (loader 0) first rest 2 refl
      (accepted 2 (omega arith))

pass_shuffled_example :
    (out : List (Item ℕ)) × Perm out (all_items clean (first ∷ rest))
    × (pass batch draws clean 10 (loader 3) (first ∷ rest)
        ≡ ok (
          all_batches batch draws clean 10 the_keys 2 [] (map (to_row the_keys) out),
          (chunk 2 [] (map (to_row the_keys) out)).1,
        ))
pass_shuffled_example =
    pass_shuffled batch draws clean 10 the_keys (loader 3) first rest 11 (omega arith) (omega arith)
      (accepted 11 (omega arith))

second_pass_example :
    (iter batch draws clean 10
      (iter batch draws clean 10 (loader 0) (first ∷ rest)).0
      (first ∷ rest)).1
    ≡ ok (
        all_batches batch draws clean 10 the_keys 2
          (chunk 2 [] (map (to_row the_keys) (all_items clean (first ∷ rest)))).1
          (map (to_row the_keys) (all_items clean (first ∷ rest))))
second_pass_example =
    second_pass batch draws clean 10 (loader 0) first rest the_keys 2 refl refl refl refl
      (accepted 2 (omega arith))

capacity_one_example : pass batch draws clean 10 (loader 1) (first ∷ rest) ≡ raise value_error
capacity_one_example =
    capacity_one batch draws clean 10 (loader 1) first rest the_keys refl
      (accepted 11 (omega arith))
