-- ===== src/TableQueue.antt =====
-- petastorm/pyarrow_helpers/batching_table_queue.py. A record batch is the list of its rows, and a
-- table is the list of its record batches, which is all that `to_batches`, `from_batches`,
-- `num_rows` and a slice of a batch let the program see of pyarrow.
pub mod Rows
mod Rounds
pub mod Fifo
pub mod Runs
mod Examples
use petastorm.Prelude.{
  ℕ, zero, suc, ◌+◌, ◌-◌, Bool, true, false, ◌&&◌, not, List, [], ◌∷◌, ◌++◌, length, take, drop,
  ltb, ◌==◌, if◌then◌else◌, Result, ok, raise, raise_if, assertion_error, value_error, diverged,
  ◌>>=◌, ◌>>◌,
}
use petastorm.Indexing.{get_item}

abbrev pub RecordBatch {ℓ} : Type ℓ → Type ℓ
RecordBatch R = List R

abbrev pub Table {ℓ} : Type ℓ → Type ℓ
Table R = List (RecordBatch R)

pub record BatchingTableQueue {ℓ} (R : Type ℓ) : Type ℓ where
  pub batch_size : ℕ
  pub buffer : List (RecordBatch R)
  pub head_idx : ℕ
  pub cumulative_len : ℕ

module _ {ℓ} {R : Type ℓ} where
  unfoldable pub init : ℕ → BatchingTableQueue R
  init batch_size = record {
    batch_size = batch_size;
    buffer = [];
    head_idx = 0;
    cumulative_len = 0;
  }

  -- the loop over `table.to_batches()`
  unfoldable pub put : BatchingTableQueue R → Table R → BatchingTableQueue R
  put q [] = q
  put q (record_batch ∷ rest) =
      put
        (record q {
          buffer = q.buffer ++ record_batch ∷ [];
          cumulative_len = q.cumulative_len + length record_batch;
        })
        rest

  unfoldable pub empty : BatchingTableQueue R → Bool
  empty q = ltb q.cumulative_len (q.head_idx + q.batch_size)

  -- `if head.num_rows == self._head_idx`, after the head index has moved to `idx`
  pop_exhausted : BatchingTableQueue R → RecordBatch R → ℕ → BatchingTableQueue R
  pop_exhausted q head idx =
      if length head == idx
      then record q {
        head_idx = 0;
        buffer = drop 1 q.buffer;
        cumulative_len = q.cumulative_len - length head;
      }
      else record q { head_idx = idx }

  -- One round of the loop of `get`: the piece, and the queue without it.
  pub consume : BatchingTableQueue R → ℕ → Result (RecordBatch R × BatchingTableQueue R)
  unfolding pop_exhausted
  consume q result_rows = do
    head ← get_item q.buffer 0
    let piece = take (q.batch_size - result_rows) (drop q.head_idx head)
    ok (piece, pop_exhausted q head (q.head_idx + length piece))

  -- The loop of `get`, on fuel.
  pub get_loop :
      ℕ → BatchingTableQueue R → ℕ → List (RecordBatch R) → Result (Table R × BatchingTableQueue R)
  get_loop zero q result_rows result = raise diverged
  get_loop (suc fuel) q result_rows result =
      elim (ltb result_rows q.batch_size && ltb 0 q.cumulative_len) [
        | true ↦ do
          (piece, q') ← consume q result_rows
          get_loop fuel q' (result_rows + length piece) (result ++ piece ∷ [])
        | false ↦ ok (result, q)
      ]

  -- `pa.Table.from_batches` takes the schema from the first batch, and raises where there is none.
  unfoldable pub from_batches : List (RecordBatch R) → Result (Table R)
  from_batches [] = raise value_error
  from_batches (b ∷ bs) = ok (b ∷ bs)

  unfoldable pub get : BatchingTableQueue R → Result (Table R × BatchingTableQueue R)
  unfolding get_loop consume empty from_batches
  get q = do
    raise_if (empty q) assertion_error
    (result, q') ← get_loop (length q.buffer + 1) q 0 []
    t ← from_batches result
    ok (t, q')
