-- ===== src/TableQueue/Fifo.antt =====
-- `BatchingTableQueue` as a queue of rows: `get` takes a fixed number of rows from its front.
use native.Mathlib.Decide.{dec_lt}
use mathlib.Core.Path.{subst}
use petastorm.Prelude.{
  raise, value_error, ℕ, zero, suc, ◌+◌, ◌-◌, ◌≤◌, ◌<◌, ◌≡◌, refl, ◌∙◌, false, [], ◌∷◌, ◌++◌,
  length, take, drop, Result, ok, ◌⊎◌, inl, arith, concat, append_assoc, append-nil, length-take,
  length-drop, take_add, drop_add,
}
use petastorm.TableQueue.{Table, BatchingTableQueue, empty, get_loop, get, from_batches}
use petastorm.TableQueue.Rows.{remaining, IsValid}
use petastorm.TableQueue.Rounds.{Consumed, consume-Consumed}

module _ {ℓ} {R : Type ℓ} where
  -- The outcome of the loop: it ends with the wanted rows taken from the front of what remained.
  pub record Took (q : BatchingTableQueue R) (wanted : ℕ) (result : Table R)
      (r : Result (Table R × BatchingTableQueue R)) : Type ℓ where
    pub pieces : Table R
    pub after : BatchingTableQueue R
    pub runs : r ≡ ok (result ++ pieces, after)
    pub valid : IsValid after
    pub front : concat pieces ≡ take wanted (remaining q)
    pub back : remaining after ≡ drop wanted (remaining q)
    pub same_size : after.batch_size ≡ q.batch_size

  loop_end :
      (fuel : ℕ) (q : BatchingTableQueue R) (result : Table R)
      → IsValid q
      → Took q 0 result (get_loop (suc fuel) q q.batch_size result)
  unfolding get_loop
  loop_end fuel q result v = record {
    pieces = [];
    after = q;
    runs = ground (arith, append-nil result);
    valid = v;
    front = refl;
    back = refl;
    same_size = refl;
  }

  -- One round, then the rest of the loop.
  loop_round :
      (fuel : ℕ) (q : BatchingTableQueue R) (rows : ℕ) (result : Table R)
      → rows < q.batch_size
      → 0 < q.cumulative_len
      → (c : Consumed q (q.batch_size - rows) rows)
      → Took c.after
          (c.after.batch_size - (rows + length c.piece))
          (result ++ c.piece ∷ [])
          (get_loop fuel c.after (rows + length c.piece) (result ++ c.piece ∷ []))
      → Took q (q.batch_size - rows) result (get_loop (suc fuel) q rows result)
  unfolding get_loop
  loop_round fuel q rows result less pos c t =
      let wanted = q.batch_size - rows in
      let next = c.after.batch_size - (rows + length c.piece) in
      let sum : wanted ≡ length c.piece + next = omega (arith, c.at_most, c.same_size) in
      record {
        pieces = c.piece ∷ t.pieces;
        after = t.after;
        runs = ground (arith, c.runs, t.runs, append_assoc result (c.piece ∷ []) t.pieces);
        valid = t.valid;
        front = rw (sum, take_add, ← c.front, t.front, c.back);
        back = rw (sum, drop_add, t.back, c.back);
        same_size = t.same_size ∙ c.same_size;
      }

  nonempty :
      (q : BatchingTableQueue R) → IsValid q → empty q ≡ false → q.batch_size ≤ length (remaining q)
  unfolding empty
  nonempty q v h =
      let le : q.head_idx + q.batch_size ≤ q.cumulative_len = ground arith in
      omega (arith, v.counted, length-drop q.head_idx (concat q.buffer))

  -- Enough fuel: a round for each batch, and one more for the last test.
  get_loop-Took :
      (fuel : ℕ) (q : BatchingTableQueue R) (rows : ℕ) (result : Table R)
      → IsValid q
      → rows ≤ q.batch_size
      → q.batch_size - rows ≤ length (remaining q)
      → (length q.buffer < fuel) ⊎ ((rows ≡ q.batch_size) × (0 < fuel))
      → Took q (q.batch_size - rows) result (get_loop fuel q rows result)
  get_loop-Took zero q rows result v le enough f = absurd (omega arith)
  get_loop-Took (suc fuel) q rows result v le enough f = elim (dec_lt rows q.batch_size) [
    | no h ↦
        let e : rows ≡ q.batch_size = omega arith in
        let z : q.batch_size - rows ≡ 0 = omega arith in rw (z, e) (loop_end fuel q result v)
    | yes h ↦
        let size = length-drop q.head_idx (concat q.buffer) in
        let pos : 0 < q.cumulative_len = omega (arith, v.counted) in
        let c = consume-Consumed q.batch_size q.head_idx q.cumulative_len rows q.buffer v pos in
        loop_round fuel q rows result h pos c (
          get_loop-Took fuel c.after (rows + length c.piece) (result ++ c.piece ∷ []) c.valid
            (omega (arith, c.at_most, c.same_size))
            (rw c.back
              (omega (arith, c.at_most, c.same_size, length-drop (length c.piece) (remaining q))))
            (omega (arith, c.progress, c.same_size, c.buffered)))
  ]

  get-Took :
      (q : BatchingTableQueue R)
      → IsValid q
      → empty q ≡ false
      → Took q q.batch_size [] (get_loop (length q.buffer + 1) q 0 [])
  get-Took q v h =
      let z : q.batch_size - 0 ≡ q.batch_size = omega arith in
      subst (λ n. Took q n [] (get_loop (length q.buffer + 1) q 0 [])) z
        (get_loop-Took (length q.buffer + 1) q 0 [] v (omega arith) (omega (arith, nonempty q v h))
          (inl (omega arith)))

  -- Where rows are wanted there are pieces.
  from_batches_pieces :
      (pieces : Table R) → 0 < length (concat pieces) → from_batches pieces ≡ ok pieces
  unfolding from_batches
  from_batches_pieces [] h = absurd (omega arith)
  from_batches_pieces (b ∷ bs) h = refl

  -- Whenever the queue is not `empty` and `batch_size` is not 0, `get` returns a table of exactly
  -- `batch_size` rows: the first ones of those that remain, in order. The queue keeps the others.
  pub get-remaining :
      (q : BatchingTableQueue R)
      → IsValid q
      → empty q ≡ false
      → 0 < q.batch_size
      → (t : Table R) × (q' : BatchingTableQueue R) × (get q ≡ ok (t, q'))
        × IsValid q'
        × (concat t ≡ take q.batch_size (remaining q))
        × (length (concat t) ≡ q.batch_size)
        × (remaining q' ≡ drop q.batch_size (remaining q))
        × (q'.batch_size ≡ q.batch_size)
  unfolding get
  get-remaining q v h some_rows =
      let t = get-Took q v h in
      let size : length (concat t.pieces) ≡ q.batch_size =
        rw (t.front, length-take) (omega (arith, nonempty q v h)) in
      (
        t.pieces,
        t.after,
        rw (h, t.runs, from_batches_pieces t.pieces (omega (arith, size, some_rows))) refl,
        t.valid,
        t.front,
        size,
        t.back,
        t.same_size,
      )

  -- With a `batch_size` of 0 the loop makes no piece, and the table cannot be made.
  pub get-no_rows :
      (q : BatchingTableQueue R) → q.batch_size ≡ 0 → empty q ≡ false → get q ≡ raise value_error
  unfolding get get_loop from_batches
  get-no_rows q z h = ground (arith, z, h)
