-- ===== src/TableQueue/Examples.antt =====
-- Runs of `BatchingTableQueue`, and the theorems at concrete queues.
use petastorm.Prelude.{ℕ, ◌≡◌, refl, [], ◌∷◌, length, take, drop, ok, concat, arith}
use petastorm.Indexing.{get_item}
use petastorm.TableQueue.{Table, BatchingTableQueue, empty, get}
use petastorm.TableQueue.Rows.{remaining, IsValid}
use petastorm.TableQueue.Fifo.{get-remaining}
use petastorm.TableQueue.Runs.{Call, run, IsFifo, run-IsFifo}

-- Two record batches, of which the first has lost its first row.
abbrev three_rows : BatchingTableQueue ℕ
three_rows = record {
  batch_size = 2;
  buffer = (1 ∷ 2 ∷ 3 ∷ []) ∷ (4 ∷ []) ∷ [];
  head_idx = 1;
  cumulative_len = 4;
}

three_rows-IsValid : IsValid three_rows
three_rows-IsValid = record { counted = refl; head_fits = omega arith }

get_three :
    get three_rows
    ≡ ok (
      ((2 ∷ 3 ∷ []) ∷ []),
      record { batch_size = 2; buffer = (4 ∷ []) ∷ []; head_idx = 0; cumulative_len = 1 },
    )
unfolding get get_item
get_three = refl

abbrev more : Table ℕ
more = (5 ∷ []) ∷ [] ∷ (6 ∷ 7 ∷ []) ∷ []

get-remaining_example :
    (t : Table ℕ) × (q' : BatchingTableQueue ℕ) × (get three_rows ≡ ok (t, q'))
    × IsValid q'
    × (concat t ≡ take 2 (remaining three_rows))
    × (length (concat t) ≡ 2)
    × (remaining q' ≡ drop 2 (remaining three_rows))
    × (q'.batch_size ≡ 2)
unfolding empty
get-remaining_example = get-remaining three_rows three_rows-IsValid refl (omega arith)

run-IsFifo_example : IsFifo 2 (run 2 (Call.add more ∷ Call.read ∷ Call.read ∷ []))
run-IsFifo_example = run-IsFifo 2 (Call.add more ∷ Call.read ∷ Call.read ∷ [])
