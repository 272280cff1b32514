-- ===== src/TableQueue/Rows.antt =====
-- The rows that a `BatchingTableQueue` still holds are its abstract state. `put` appends to them.
use petastorm.Prelude.{
  ℕ, ◌+◌, ◌≤◌, ◌≡◌, refl, sym, ◌∙◌, List, [], ◌∷◌, ◌++◌, length, drop, arith, concat, concat-append,
  append_assoc, append-nil, length-append, drop-append_le,
}
use petastorm.TableQueue.{RecordBatch, Table, BatchingTableQueue, init, put}

module _ {ℓ} {R : Type ℓ} where
  -- The rows that are still to be read, in order.
  abbrev pub remaining : BatchingTableQueue R → List R
  remaining q = drop q.head_idx (concat q.buffer)

  -- The head index lies in the first batch.
  abbrev pub HeadFits : ℕ → List (RecordBatch R) → Type 0
  HeadFits idx [] = idx ≡ 0
  HeadFits idx (head ∷ rest) = idx ≤ length head

  pub record IsValid (q : BatchingTableQueue R) : Type 0 where
    pub counted : q.cumulative_len ≡ length (concat q.buffer)
    pub head_fits : HeadFits q.head_idx q.buffer

  pub init-IsValid : (batch_size : ℕ) → IsValid (init batch_size)
  unfolding init
  init-IsValid batch_size = record { counted = refl; head_fits = refl }

  pub HeadFits-le :
      (idx : ℕ) (buffer : List (RecordBatch R)) → HeadFits idx buffer → idx ≤ length (concat buffer)
  HeadFits-le idx [] h = omega arith
  HeadFits-le idx (head ∷ rest) h = omega (arith, length-append head (concat rest))

  HeadFits-append :
      (idx : ℕ) (buffer : List (RecordBatch R)) (b : RecordBatch R)
      → HeadFits idx buffer
      → HeadFits idx (buffer ++ b ∷ [])
  HeadFits-append idx [] b h = omega arith
  HeadFits-append idx (head ∷ rest) b h = h

  concat_snoc :
      (buffer : List (RecordBatch R)) (b : RecordBatch R)
      → concat (buffer ++ b ∷ []) ≡ concat buffer ++ b
  concat_snoc buffer b = rw (concat-append buffer (b ∷ []), append-nil b)

  -- Putting a table keeps the invariant, and appends the rows of the table, in order.
  pub put-remaining :
      (t : Table R) (q : BatchingTableQueue R)
      → IsValid q
      → IsValid (put q t)
        × (remaining (put q t) ≡ remaining q ++ concat t)
        × ((put q t).batch_size ≡ q.batch_size)
  unfolding put
  put-remaining [] q v = (v, sym (append-nil (remaining q)), refl)
  put-remaining (b ∷ rest) q v = let (v', e, n) = put-remaining rest q' step in (v', e ∙ more, n)
    where
      q' : BatchingTableQueue R
      q' = record q { buffer = q.buffer ++ b ∷ []; cumulative_len = q.cumulative_len + length b }

      step : IsValid q'
      step = record {
        counted = rw (concat_snoc q.buffer b, length-append, v.counted);
        head_fits = HeadFits-append q.head_idx q.buffer b v.head_fits;
      }

      more : remaining q' ++ concat rest ≡ remaining q ++ (b ++ concat rest)
      more = rw (
        concat_snoc q.buffer b,
        drop-append_le q.head_idx (concat q.buffer) b (HeadFits-le q.head_idx q.buffer v.head_fits),
        append_assoc,
      )
