-- ===== src/TableQueue/Rounds.antt =====
-- One round of the loop of `get`.
use native.Mathlib.Decide.{dec_le}
use petastorm.Prelude.{
  ℕ, ◌+◌, ◌-◌, ◌≤◌, ◌<◌, ◌≡◌, refl, sym, List, [], ◌∷◌, ◌++◌, length, take, drop, ok, ◌⊎◌, inl, inr,
  arith, concat, length-append, length-take, length-drop, take-append, drop-append, take-append_le,
  drop-append_le, take_of_length-le, drop_add,
}
use petastorm.Indexing.{get_item}
use petastorm.TableQueue.{RecordBatch, BatchingTableQueue, consume}
use petastorm.TableQueue.Rows.{remaining, HeadFits, IsValid}

module _ {ℓ} {R : Type ℓ} where
  -- One round of the loop takes the front of what remains: all that is left of the first batch, or
  -- as many rows as are still wanted.
  pub record Consumed (q : BatchingTableQueue R) (wanted rows : ℕ) : Type ℓ where
    pub piece : RecordBatch R
    pub after : BatchingTableQueue R
    pub runs : consume q rows ≡ ok (piece, after)
    pub valid : IsValid after
    pub front : piece ≡ take (length piece) (remaining q)
    pub back : remaining after ≡ drop (length piece) (remaining q)
    pub at_most : length piece ≤ wanted
    pub same_size : after.batch_size ≡ q.batch_size
    pub buffered : 0 < length q.buffer
    pub progress :
        (length piece ≡ wanted) × (length after.buffer ≤ length q.buffer)
        ⊎ (length after.buffer + 1 ≡ length q.buffer)

  HeadFits-zero : (buffer : List (RecordBatch R)) → HeadFits 0 buffer
  HeadFits-zero [] = refl
  HeadFits-zero (head ∷ rest) = omega arith

  module _ (batch_size idx cum rows : ℕ) (head : RecordBatch R) (rest : List (RecordBatch R)) where
    abbrev front_queue : BatchingTableQueue R
    front_queue = record {
      batch_size = batch_size;
      buffer = head ∷ rest;
      head_idx = idx;
      cumulative_len = cum;
    }

    left : IsValid front_queue → drop idx (head ++ concat rest) ≡ drop idx head ++ concat rest
    left v = drop-append_le idx head (concat rest) v.head_fits

    -- The first batch is used up.
    consume_pop :
        IsValid front_queue
        → length head ≤ idx + (batch_size - rows)
        → Consumed front_queue (batch_size - rows) rows
    unfolding consume get_item
    consume_pop v h =
        let size = length-drop idx head in
        record {
          piece = drop idx head;
          after = record {
            batch_size = batch_size;
            buffer = rest;
            head_idx = 0;
            cumulative_len = cum - length head;
          };
          runs =
              rw (take_of_length-le (batch_size - rows) (drop idx head) (omega arith))
                (ground (arith, size, v.head_fits));
          valid = record {
            counted = omega (arith, v.counted, length-append head (concat rest));
            head_fits = HeadFits-zero rest;
          };
          front =
              rw (left v)
                (sym (take-append (length (drop idx head)) (drop idx head) (concat rest) refl));
          back = rw (left v) (sym (drop-append _ 0 (drop idx head) (concat rest) (omega arith)));
          at_most = omega arith;
          same_size = refl;
          buffered = omega arith;
          progress = inr (omega arith);
        }

    -- A part of the first batch is enough.
    consume_part :
        IsValid front_queue
        → idx + (batch_size - rows) < length head
        → Consumed front_queue (batch_size - rows) rows
    unfolding consume get_item
    consume_part v h =
        let n = batch_size - rows in
        let size : length (take n (drop idx head)) ≡ n =
          omega (arith, length-take n (drop idx head), length-drop idx head) in
        record {
          piece = take n (drop idx head);
          after = record front_queue { head_idx = idx + n };
          runs = rw size (ground arith);
          valid = record { counted = v.counted; head_fits = omega arith };
          front = rw (
            size,
            left v,
            take-append_le n (drop idx head) (concat rest) (omega (arith, length-drop idx head)),
          );
          back = rw (size, drop_add idx n (head ++ concat rest));
          at_most = omega arith;
          same_size = refl;
          buffered = omega arith;
          progress = inl (size, omega arith);
        }

  -- Every round that is made takes rows from the front.
  pub consume-Consumed :
      (batch_size idx cum rows : ℕ) (buffer : List (RecordBatch R))
      → (let q : BatchingTableQueue R = record {
        batch_size = batch_size;
        buffer = buffer;
        head_idx = idx;
        cumulative_len = cum;
      } in
          IsValid q → 0 < q.cumulative_len → Consumed q (batch_size - rows) rows)
  consume-Consumed b idx cum rows [] v pos = absurd (omega (arith, v.counted))
  consume-Consumed b idx cum rows (head ∷ rest) v pos =
      elim (dec_le (length head) (idx + (b - rows))) [
        | yes h ↦ consume_pop b idx cum rows head rest v h
        | no h ↦ consume_part b idx cum rows head rest v (omega arith)
      ]
