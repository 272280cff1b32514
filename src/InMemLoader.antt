-- ===== src/InMemLoader.antt =====
-- petastorm/pytorch.py: `_load_rows_into_mem` and `InMemBatchedDataLoader`. The reader is the list of
-- the samples that it yields. `rng` gives the permutation that torch's generator draws for a seed.
pub mod Filling
pub mod Rounds
pub mod Loading
pub mod Epochs
pub mod Passes
mod Examples
use Prim.Native.String.{String}
use petastorm.Prelude.{
  ℕ, zero, suc, ◌+◌, ◌-◌, Bool, true, false, Option, none, some, List, [], ◌∷◌, ◌++◌, map, length,
  take, replicate, ltb, leb, ◌==◌, if◌then◌else◌, Result, ok, raise, raise_if, not, diverged,
  type_error, value_error, runtime_error, assertion_error, ◌>>=◌, ◌>>◌, ◌||◌,
}
use petastorm.Tensors.{slice, gather, assign, each, each_item}
use petastorm.Tensors.Randperm.{Randperm}
use petastorm.BatchedBuffer.Columns.{first_length}
use petastorm.NGram.{range_from}
use petastorm.DataLoader.{Row, Sample, keys, zip_keys}
use petastorm.BatchedLoader.{tensors}

-- The variables of the loop of `_load_rows_into_mem`.
pub record Memory (A : Type 0) : Type 0 where
  pub n_rows : ℕ
  pub buffer_full : Bool
  pub buffer : Option (List (List A))
  pub keys : List String

abbrev pub empty_memory : {A : Type 0} → Memory A
empty_memory = record { n_rows = 0; buffer_full = false; buffer = none; keys = [] }

unfoldable pub or_keys : List String → List String → List String
or_keys [] new = new
or_keys (k ∷ ks) new = k ∷ ks

module _ {V A : Type 0} (sanitize : Sample V → Result (Sample V))
    (transform_fn : List V → Result (List A)) (blank : A) (rows_capacity : ℕ) where
  -- The buffer, made for the first sample.
  unfoldable pub or_empty : Option (List (List A)) → List (List A) → List (List A)
  or_empty none items = map (λ v. replicate rows_capacity blank) items
  or_empty (some tensors) items = tensors

  -- One round: the rows of a sample, as far as the capacity reaches.
  unfoldable pub load_sample : Sample V → Memory A → Result (Memory A)
  unfolding or_keys
  load_sample r m = do
    sample ← sanitize r
    items ← tensors transform_fn sample
    new ← first_length items
    let buffer_full = leb rows_capacity (m.n_rows + new)
    let expected_rows = if buffer_full then rows_capacity else m.n_rows + new
    let last_row = if buffer_full then rows_capacity - m.n_rows else new
    filled ←
        each_item (λ t v. assign m.n_rows expected_rows t (take last_row v))
          (or_empty m.buffer items) items
    ok (record {
      n_rows = expected_rows;
      buffer_full = buffer_full || m.buffer_full;
      buffer = some filled;
      keys = or_keys m.keys (keys sample);
    })

  unfoldable pub load_loop : List (Sample V) → Memory A → Result (Memory A)
  load_loop [] m = ok m
  load_loop (r ∷ rest) m = elim m.buffer_full [
    | true ↦ ok m
    | false ↦ do m' ← load_sample r m; load_loop rest m'
  ]

  -- The tensors without the rows that are not filled; without any sample they are still missing.
  unfoldable pub truncate : Memory A → Result (Option (List (List A)))
  truncate m =
      if ltb m.n_rows rows_capacity
      then (elim m.buffer [
        | none ↦ raise type_error
        | some ts ↦ ok (some (map (take m.n_rows) ts))
      ])
      else ok m.buffer

  unfoldable pub load_rows_into_mem :
      List (Sample V) → Result (List String × Option (List (List A)))
  load_rows_into_mem samples = do
    m ← load_loop samples empty_memory
    buffer ← truncate m
    ok (m.keys, buffer)

pub record InMemBatchedDataLoader (A : Type 0) : Type 0 where
  pub batch_size : ℕ
  pub num_epochs : ℕ
  pub seed : ℕ
  pub shuffle : Bool
  pub in_iter : Bool
  pub keys : List String
  pub buffer : Option (List (List A))

module _ {A : Type 0} (rng : ℕ → Randperm) where
  module _ (d : InMemBatchedDataLoader A) (tensors : List (List A)) (indices : List ℕ) where
    -- The loop over the batches of an epoch, on fuel: the batches and the rows that are still due.
    unfoldable pub batch_loop : ℕ → ℕ → ℕ → Result (List (Row (List A)) × ℕ)
    batch_loop zero i size = raise diverged
    batch_loop (suc fuel) i size = elim (ltb i (length indices)) [
      | false ↦ ok ([], size)
      | true ↦ do
        batch ← each (λ v. gather v (slice i (i + d.batch_size) indices)) tensors
        n ← first_length batch
        (rest, left) ← batch_loop fuel (i + d.batch_size) (size - n)
        ok (zip_keys d.keys batch ∷ rest, left)
    ]

  -- The tensors that were loaded; `None[0]` is a TypeError.
  unfoldable pub loaded : InMemBatchedDataLoader A → Result (List (List A))
  loaded d = elim d.buffer [ none ↦ raise type_error | some tensors ↦ ok tensors ]

  unfoldable pub indices_of : InMemBatchedDataLoader A → ℕ → ℕ → List ℕ
  indices_of d epoch size =
      if d.shuffle then (rng (d.seed + epoch)).randperm size else range_from 0 size

  -- One epoch. `range` refuses a step of 0.
  unfoldable pub run_epoch : InMemBatchedDataLoader A → ℕ → Result (List (Row (List A)))
  run_epoch d epoch = do
    tensors ← loaded d
    size ← first_length tensors
    let indices = indices_of d epoch size
    raise_if (d.batch_size == 0) value_error
    (out, left) ← batch_loop d tensors indices (length indices + 1) 0 size
    raise_if (not (left == 0)) assertion_error
    ok out

  unfoldable pub run_epochs : InMemBatchedDataLoader A → List ℕ → Result (List (Row (List A)))
  run_epochs d [] = ok []
  run_epochs d (epoch ∷ epochs) = do
    out ← run_epoch d epoch
    more ← run_epochs d epochs
    ok (out ++ more)

  -- `__iter__`, run to its end.
  unfoldable pub iter :
      InMemBatchedDataLoader A → InMemBatchedDataLoader A × Result (List (Row (List A)))
  iter d =
      if d.in_iter
      then (d, raise runtime_error)
      else (record d { in_iter = true }, run_epochs d (range_from 0 d.num_epochs))

-- `__init__`
unfoldable pub init :
    {V A : Type 0}
    → (Sample V → Result (Sample V))
    → (List V → Result (List A))
    → A
    → (batch_size num_epochs seed rows_capacity : ℕ) → Bool
    → List (Sample V)
    → Result (InMemBatchedDataLoader A)
init sanitize transform_fn blank batch_size num_epochs seed rows_capacity shuffle samples = do
  (keys, buffer) ← load_rows_into_mem sanitize transform_fn blank rows_capacity samples
  ok (record {
    batch_size = batch_size;
    num_epochs = num_epochs;
    seed = seed;
    shuffle = shuffle;
    in_iter = false;
    keys = keys;
    buffer = buffer;
  })
