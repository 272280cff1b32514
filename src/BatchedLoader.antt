-- ===== src/BatchedLoader.antt =====
-- petastorm/pytorch.py: `BatchedDataLoader`. The reader is the list of the samples that it yields; the
-- permutations that torch draws come from `rng`, one source for each batch. A pass gives the list of
-- the batches that the generator yields.
pub mod Batches
pub mod Drain
pub mod Passes
pub mod Loaders
pub mod Faults
mod Examples
use Prim.Native.String.{String}
use petastorm.Prelude.{
  ℕ, zero, suc, ◌+◌, ◌-◌, true, false, List, [], ◌∷◌, ◌++◌, ltb, if◌then◌else◌, Result, ok, raise,
  diverged, ◌>>=◌,
}
use petastorm.Tensors.{each}
use petastorm.Tensors.Randperm.{Randperm}
use petastorm.BatchedBuffer.Interface.{BatchedShufflingBufferBase}
use petastorm.BatchedBuffer.Instances.{noop_buffer, random_buffer}
use petastorm.BatchedBuffer.Noop
use petastorm.BatchedBuffer.Random
use petastorm.DataLoader.{Row, Sample, keys, zip_keys}

pub record BatchedDataLoader : Type 0 where
  pub batch_size : ℕ
  pub shuffling_queue_capacity : ℕ

module _ {V A : Type 0} (transform_fn : List V → Result (List A)) where
  -- The tensors of a sample: those of the columns, or one of a single row for each value.
  unfoldable pub tensors : Sample V → Result (List (List A))
  tensors (Sample.row r) = each (λ e. transform_fn (e.1 ∷ [])) r
  tensors (Sample.columns cs) = each (λ e. transform_fn e.1) cs

module _ {A : Type 0} (I : BatchedShufflingBufferBase A) (rng : ℕ → Randperm) where
  -- The buffer and the draws so far.
  pub record State : Type 0 where
    pub buffer : I.Buffer
    pub draws : ℕ

  -- The loop of `_yield_batches`, on fuel. A batch is the dictionary of its columns.
  unfoldable pub yield_batches : ℕ → List String → State → Result (List (Row (List A)) × State)
  yield_batches zero ks s = raise diverged
  yield_batches (suc fuel) ks s = elim (I.can_retrieve s.buffer) [
    | false ↦ ok ([], s)
    | true ↦ do
      (batch, buffer) ← I.retrieve (rng s.draws) s.buffer
      (rest, s') ← yield_batches fuel ks (record { buffer = buffer; draws = s.draws + 1 })
      ok (zip_keys ks batch ∷ rest, s')
  ]

module _ {V A : Type 0} (I : BatchedShufflingBufferBase A) (rng : ℕ → Randperm)
    (sanitize : Sample V → Result (Sample V)) (transform_fn : List V → Result (List A)) where
  -- The loop over the reader of `_iter_impl`. `sanitize` is `_sanitize_pytorch_types`.
  unfoldable pub feed :
      List String
      → State I rng
      → List (Sample V)
      → Result (List (Row (List A)) × List String × State I rng)
  feed ks s [] = ok ([], ks, s)
  feed ks s (r ∷ rest) = do
    sample ← sanitize r
    items ← tensors transform_fn sample
    buffer ← I.add_many s.buffer items
    (out, s') ← yield_batches I rng (I.size buffer + 1) (keys sample) (record s { buffer = buffer })
    (more, ks', s'') ← feed (keys sample) s' rest
    ok (out ++ more, ks', s'')

  -- `_iter_impl`, from the buffer that it has made.
  unfoldable pub iter_impl : State I rng → List (Sample V) → Result (List (Row (List A)))
  iter_impl s samples = do
    (out, ks, s') ← feed [] s samples
    let finished = I.finish s'.buffer
    (more, s'') ← yield_batches I rng (I.size finished + 1) ks (record s' { buffer = finished })
    ok (out ++ more)

-- `_iter_impl` with the buffer that it makes; `extra_capacity` is its constant 100000000.
unfoldable pub pass :
    {V A : Type 0}
    → (ℕ → Randperm)
    → (Sample V → Result (Sample V))
    → (List V → Result (List A))
    → A
    → ℕ
    → BatchedDataLoader
    → List (Sample V)
    → Result (List (Row (List A)))
pass rng sanitize transform_fn blank extra_capacity d samples =
    if ltb 0 d.shuffling_queue_capacity
    then (let min_after_dequeue = d.shuffling_queue_capacity - 1 in
        iter_impl (random_buffer blank) rng sanitize transform_fn
          (record {
            buffer =
                Random.init (min_after_dequeue + d.batch_size) min_after_dequeue extra_capacity
                  d.batch_size;
            draws = 0;
          })
          samples)
    else iter_impl noop_buffer rng sanitize transform_fn
        (record { buffer = Noop.init d.batch_size; draws = 0 }) samples
