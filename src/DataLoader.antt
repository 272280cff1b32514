-- ===== src/DataLoader.antt =====
-- petastorm/pytorch.py: `LoaderBase` and `DataLoader`. The reader is the list of the samples that it
-- yields; the numbers that numpy draws come from `rng`, one source for each draw. A pass over the
-- loader gives the list of the batches that the generator yields, and the state in which it ends.
pub mod Chunks
pub mod Drain
pub mod Passes
pub mod Loaders
pub mod Faults
mod Examples
use Prim.Native.String.{String}
use petastorm.Prelude.{
  ℕ, zero, suc, ◌+◌, ◌-◌, Bool, true, false, Option, none, some, List, [], ◌∷◌, ◌++◌, map, length,
  ltb, ◌==◌, if◌then◌else◌, Result, ok, raise, diverged, type_error, runtime_error, Error, ◌>>=◌,
  ◌||◌,
}
use petastorm.ShufflingBuffer.Source.{Randint}
use petastorm.ShufflingBuffer.Interface.{ShufflingBufferBase}
use petastorm.ShufflingBuffer.Instances.{noop_buffer, random_buffer}
use petastorm.ShufflingBuffer.Noop
use petastorm.ShufflingBuffer.Random

-- A row as a dictionary, in the order of its keys.
abbrev pub Row : Type 0 → Type 0
Row V = List (String × V)

-- What the reader yields: one row, or (`batched_output`) a row group as a column for each key.
pub data Sample (V : Type 0) : Type 0 where
  row : Row V → Sample V
  columns : List (String × List V) → Sample V

-- What the shuffling buffer stores: a row, or the values of a row without the keys.
pub data Item (V : Type 0) : Type 0 where
  dict : Row V → Item V
  tuple : List V → Item V

module _ {V : Type 0} where
  unfoldable pub keys : Sample V → List String
  keys (row r) = map (λ e. e.0) r
  keys (columns cs) = map (λ e. e.0) cs

  -- The first value of every column, and the columns without them.
  heads : List (List V) → Option (List V × List (List V))
  heads [] = some ([], [])
  heads ([] ∷ cs) = none
  heads ((x ∷ xs) ∷ cs) = elim (heads cs) [
    | none ↦ none
    | some (ys, rest) ↦ some (x ∷ ys, xs ∷ rest)
  ]

  -- `zip(*columns)`, for at most as many rows as the first argument says.
  zip_rows : ℕ → List (List V) → List (List V)
  unfolding heads
  zip_rows zero cs = []
  zip_rows (suc n) cs = elim (heads cs) [ none ↦ [] | some (ys, rest) ↦ ys ∷ zip_rows n rest ]

  -- `zip` ends with its shortest argument, so the first column bounds the number of rows.
  transpose : List (List V) → List (List V)
  unfolding zip_rows
  transpose [] = []
  transpose (c ∷ cs) = zip_rows (length c) (c ∷ cs)

  -- The items that one sample adds to the buffer.
  unfoldable pub group : Sample V → List (Item V)
  unfolding transpose
  group (row r) = dict r ∷ []
  group (columns cs) = map tuple (transpose (map (λ e. e.1) cs))

  -- `dict(zip(keys, values))`
  pub zip_keys : List String → List V → Row V
  zip_keys (k ∷ ks) (v ∷ vs) = (k, v) ∷ zip_keys ks vs
  zip_keys _ _ = []

  unfoldable pub to_row : List String → Item V → Row V
  unfolding zip_keys
  to_row ks (dict r) = r
  to_row ks (tuple vs) = zip_keys ks vs

  -- The value that was retrieved; `dict(zip(keys, None))` is a TypeError.
  retrieved_row : List String → Option (Item V) → Result (Row V)
  retrieved_row ks none = raise type_error
  retrieved_row ks (some item) = ok (to_row ks item)

-- `if self._batch_acc: yield self.collate_fn(self._batch_acc)`
unfoldable pub last_batch : {V C : Type 0} → (List (Row V) → C) → List (Row V) → List C
last_batch collate_fn [] = []
last_batch collate_fn (r ∷ rs) = collate_fn (r ∷ rs) ∷ []

module _ {V C : Type 0} (I : ShufflingBufferBase (Item V)) (collate_fn : List (Row V) → C)
    (rng : ℕ → Randint) (batch_size : ℕ) where
  -- The buffer, the rows of the batch that is not complete yet, and the draws so far.
  pub record State : Type 0 where
    pub buffer : I.Buffer
    pub batch_acc : List (Row V)
    pub draws : ℕ

  -- The loop of `_yield_batches`, on fuel.
  unfoldable pub yield_batches : ℕ → List String → State → Result (List C × State)
  unfolding retrieved_row
  yield_batches zero ks s = raise diverged
  yield_batches (suc fuel) ks s = elim (I.can_retrieve s.buffer) [
    | false ↦ ok ([], s)
    | true ↦ do
      (item, buffer) ← I.retrieve (rng s.draws) s.buffer
      post_shuffled_row ← retrieved_row ks item
      let acc = s.batch_acc ++ post_shuffled_row ∷ []
      let ready = length acc == batch_size
      (rest, s') ←
          yield_batches fuel ks
            (record { buffer = buffer; batch_acc = if ready then [] else acc; draws = s.draws + 1 })
      ok (if ready then collate_fn acc ∷ rest else rest, s')
  ]

  -- The loop over the reader of `_iter_impl`. `sanitize` is `_sanitize_pytorch_types`.
  unfoldable pub feed :
      (Sample V → Result (Sample V))
      → List String
      → State
      → List (Sample V)
      → Result (List C × List String × State)
  feed sanitize ks s [] = ok ([], ks, s)
  feed sanitize ks s (r ∷ rest) = do
    sample ← sanitize r
    buffer ← I.add_many s.buffer (group sample)
    (out, s') ← yield_batches (I.size buffer + 1) (keys sample) (record s { buffer = buffer })
    (more, ks', s'') ← feed sanitize (keys sample) s' rest
    ok (out ++ more, ks', s'')

  -- `_iter_impl`, from the buffer that it has made. `self._batch_acc` is not cleared at the end.
  unfoldable pub iter_impl :
      (Sample V → Result (Sample V)) → State → List (Sample V) → Result (List C × State)
  iter_impl sanitize s samples = do
    (out, ks, s') ← feed sanitize [] s samples
    let finished = I.finish s'.buffer
    (more, s'') ← yield_batches (I.size finished + 1) ks (record s' { buffer = finished })
    ok (out ++ (more ++ last_batch collate_fn s''.batch_acc), s'')

-- The rows that a pass leaves in `_batch_acc` go into the next pass.
pub record DataLoader (V : Type 0) : Type 0 where
  pub batch_size : ℕ
  pub shuffling_queue_capacity : ℕ
  pub batch_acc : List (Row V)
  pub in_iter : Option Bool
  pub error : Option Error

is_some : {A : Type 0} → Option A → Bool
is_some none = false
is_some (some a) = true

is_true : Option Bool → Bool
is_true none = false
is_true (some b) = b

-- The end of the generator: `except` notes the error, and `finally` ends the iteration.
ended :
    {V C : Type 0} → DataLoader V → Result (List C × List (Row V)) → DataLoader V × Result (List C)
ended d (ok (out, acc)) = (record d { batch_acc = acc; in_iter = some false }, ok out)
ended d (raise e) = (record d { in_iter = some false; error = some e }, raise e)

module _ {V C : Type 0} (collate_fn : List (Row V) → C) (rng : ℕ → Randint)
    (sanitize : Sample V → Result (Sample V)) (extra_capacity : ℕ) where
  -- `_iter_impl` with the buffer that it makes; `extra_capacity` is its constant 100000000. The rows
  -- of `_batch_acc` that are left come back beside the batches.
  unfoldable pub pass : DataLoader V → List (Sample V) → Result (List C × List (Row V))
  pass d samples =
      if ltb 0 d.shuffling_queue_capacity
      then (do
        (out, s) ←
            iter_impl random_buffer collate_fn rng d.batch_size sanitize
              (record {
                buffer =
                    Random.init d.shuffling_queue_capacity (d.shuffling_queue_capacity - 1)
                      extra_capacity;
                batch_acc = d.batch_acc;
                draws = 0;
              })
              samples
        ok (out, s.batch_acc))
      else (do
        (out, s) ←
            iter_impl noop_buffer collate_fn rng d.batch_size sanitize
              (record { buffer = Noop.init; batch_acc = d.batch_acc; draws = 0 }) samples
        ok (out, s.batch_acc))

  -- `__iter__`, run to its end. The samples are those of the reader, which is reset first if this is
  -- not the first pass.
  unfoldable pub iter : DataLoader V → List (Sample V) → DataLoader V × Result (List C)
  unfolding is_some is_true ended
  iter d samples =
      if is_some d.error || is_true d.in_iter
      then (d, raise runtime_error)
      else ended d (pass d samples)
