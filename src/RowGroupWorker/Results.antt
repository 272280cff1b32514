-- ===== src/RowGroupWorker/Results.antt =====
-- `PyDictReaderWorkerResultsQueueReader`: the rows of the pool's results, one for each call. The pool
-- is the list of the results that it still gives, then it raises an EmptyResultError. `convert` makes
-- a named tuple of a row, or of each row of an NGram.
use petastorm.Prelude.{
  ℕ, zero, suc, ◌<◌, ◌≡◌, refl, List, [], ◌∷◌, ◌++◌, map, map-append, length, concat, Result, ok,
  raise, index_error, empty_result_error, stop_iteration, arith, ◌>>=◌,
}

pub record ResultsQueueReader (X T : Type 0) : Type 0 where
  pub pool : List (List X)
  pub result_buffer : List T

module _ {X : Type 0} where
  unfoldable pub get_results : List (List X) → Result (List X × List (List X))
  get_results [] = raise empty_result_error
  get_results (rows ∷ pool) = ok (rows, pool)

  unfoldable pub reversed : List X → List X
  reversed [] = []
  reversed (x ∷ xs) = reversed xs ++ x ∷ []

  -- `except EmptyResultError: raise StopIteration`
  unfoldable pub or_stop : Result (List X × List (List X)) → Result (List X × List (List X))
  or_stop (raise empty_result_error) = raise stop_iteration
  or_stop (raise e) = raise e
  or_stop (ok r) = ok r

  abbrev pub NoneEmpty : List (List X) → Type 0
  NoneEmpty [] = Unit
  NoneEmpty (rows ∷ pool) = (0 < length rows) × NoneEmpty pool

module _ {T : Type 0} where
  -- `list.pop()`
  unfoldable pub pop : List T → Result (List T × T)
  pop [] = raise index_error
  pop (x ∷ []) = ok ([], x)
  pop (x ∷ y ∷ xs) = do (rest, last) ← pop (y ∷ xs); ok (x ∷ rest, last)

  pop-append : (xs : List T) (x : T) → pop (xs ++ x ∷ []) ≡ ok (xs, x)
  unfolding pop
  pop-append [] x = refl
  pop-append (y ∷ []) x = refl
  pop-append (y ∷ z ∷ xs) x = rw (pop-append (z ∷ xs) x)

module _ {X T : Type 0} (convert : X → T) where
  unfoldable pub refill : ResultsQueueReader X T → Result (ResultsQueueReader X T)
  refill s = elim s.result_buffer [
    | [] ↦ do
      (rows, pool) ← or_stop (get_results s.pool)
      ok (record { pool = pool; result_buffer = map convert (reversed rows) })
    | x ∷ xs ↦ ok s
  ]

  refill_full :
      (s : ResultsQueueReader X T) (xs : List T) (x : T)
      → s.result_buffer ≡ xs ++ x ∷ []
      → refill s ≡ ok s
  unfolding refill
  refill_full s [] x e = ground (arith, e)
  refill_full s (y ∷ xs) x e = ground (arith, e)

  reversed_last :
      (x : X) (pending : List X)
      → map convert (reversed (x ∷ pending)) ≡ map convert (reversed pending) ++ convert x ∷ []
  unfolding reversed
  reversed_last x pending = rw map-append refl

  unfoldable pub read_next : ResultsQueueReader X T → Result (T × ResultsQueueReader X T)
  read_next s = do
    filled ← refill s
    (rest, row) ← pop filled.result_buffer
    ok (row, record filled { result_buffer = rest })

  -- So many calls in turn.
  unfoldable pub read_rows : ℕ → ResultsQueueReader X T → Result (List T × ResultsQueueReader X T)
  read_rows zero s = ok ([], s)
  read_rows (suc n) s = do
    (row, s') ← read_next s
    (rows, s'') ← read_rows n s'
    ok (row ∷ rows, s'')

  -- The reader with the rows `pending` of a result that it has not given yet.
  abbrev pub reader : List X → List (List X) → ResultsQueueReader X T
  reader pending pool = record { pool = pool; result_buffer = map convert (reversed pending) }

  pop_pending :
      (x : X) (pending : List X)
      → pop (map convert (reversed (x ∷ pending))) ≡ ok (map convert (reversed pending), convert x)
  unfolding reversed
  pop_pending x pending = rw map-append (pop-append (map convert (reversed pending)) (convert x))

  refill_some :
      (x : X) (pending : List X) (pool : List (List X))
      → refill (reader (x ∷ pending) pool) ≡ ok (reader (x ∷ pending) pool)
  refill_some x pending pool =
      refill_full (reader (x ∷ pending) pool) (map convert (reversed pending)) (convert x)
        (reversed_last x pending)

  next_pending :
      (x : X) (pending : List X) (pool : List (List X))
      → read_next (reader (x ∷ pending) pool) ≡ ok (convert x, reader pending pool)
  unfolding read_next
  next_pending x pending pool = rw (refill_some x pending pool, pop_pending x pending) refl

  refill_next :
      (rows : List X) (pool : List (List X))
      → refill (reader [] (rows ∷ pool)) ≡ ok (reader rows pool)
  unfolding refill reversed or_stop get_results
  refill_next rows pool = refl

  next_result :
      (x : X) (rows : List X) (pool : List (List X))
      → read_next (reader [] ((x ∷ rows) ∷ pool)) ≡ ok (convert x, reader rows pool)
  unfolding read_next
  next_result x rows pool = rw (refill_next (x ∷ rows) pool, pop_pending x rows) refl

  -- The rows of the pool's results come out one by one, in the pool's order, where no result is empty.
  pending_rows :
      (pending : List X) (pool : List (List X))
      → NoneEmpty pool
      → read_rows (length (pending ++ concat pool)) (reader pending pool)
        ≡ ok (map convert (pending ++ concat pool), reader [] [])
  unfolding read_rows
  pending_rows [] [] full = refl
  pending_rows [] ([] ∷ pool) full = absurd (omega (arith, full.0))
  pending_rows [] ((x ∷ rows) ∷ pool) full =
      rw (next_result x rows pool, pending_rows rows pool full.1) refl
  pending_rows (x ∷ pending) pool full =
      rw (next_pending x pending pool, pending_rows pending pool full) refl

  stops : read_next (reader [] []) ≡ raise stop_iteration
  unfolding read_next refill reversed or_stop get_results
  stops = refl

  -- For a pool whose results have rows: as many calls as there are rows give every row of every result
  -- once, in the order in which the pool gives the results and the workers read the rows, each one
  -- converted. The call after them raises StopIteration.
  pub read_rows-all :
      (pool : List (List X))
      → NoneEmpty pool
      → (s : ResultsQueueReader X T) × (read_rows
            (length (concat pool))
            (record { pool = pool; result_buffer = [] })
          ≡ ok (map convert (concat pool), s))
        × (read_next s ≡ raise stop_iteration)
  unfolding reversed
  read_rows-all pool full = (reader [] [], pending_rows [] pool full, stops)
