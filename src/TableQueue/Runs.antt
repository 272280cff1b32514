-- ===== src/TableQueue/Runs.antt =====
-- A client of `BatchingTableQueue` that puts tables and gets batches in any order.
use native.Mathlib.Decide.{dec_lt}
use mathlib.Core.List.{foldl}
use petastorm.Prelude.{
  arith, ℕ, ◌≡◌, refl, ◌∙◌, ap, true, inl, inr, List, [], ◌∷◌, ◌++◌, length, Result, ok, raise,
  concat, concat-append, append_assoc, append-nil, Bool-cases, take-append-drop, assertion_error,
}
use petastorm.TableQueue.{Table, BatchingTableQueue, init, put, empty, get}
use petastorm.TableQueue.Rows.{remaining, IsValid, init-IsValid, put-remaining}
use petastorm.TableQueue.Fifo.{get-remaining, get-no_rows}

pub data Call {ℓ} (R : Type ℓ) : Type ℓ where
  add : Table R → Call R
  read : Call R

-- The queue, the tables that were put, and the tables that were returned, in order.
pub record Run {ℓ} (R : Type ℓ) : Type ℓ where
  pub queue : BatchingTableQueue R
  pub taken : List (Table R)
  pub given : List (Table R)

module _ {ℓ} {R : Type ℓ} where
  -- After an exception of `get` the client goes on.
  after_get : Run R → Result (Table R × BatchingTableQueue R) → Run R
  after_get r (ok (t, q)) = record r { queue = q; given = r.given ++ t ∷ [] }
  after_get r (raise e) = r

  pub call : Run R → Call R → Run R
  unfolding after_get
  call r (add t) = record r { queue = put r.queue t; taken = r.taken ++ t ∷ [] }
  call r read = after_get r (get r.queue)

  pub run : ℕ → List (Call R) → Run R
  run batch_size = foldl call (record { queue = init batch_size; taken = []; given = [] })

  -- The rows of a list of tables, in order.
  abbrev pub rows : List (Table R) → List R
  rows ts = concat (concat ts)

  abbrev HaveRows : ℕ → List (Table R) → Type 0
  HaveRows n [] = Unit
  HaveRows n (t ∷ ts) = (length (concat t) ≡ n) × HaveRows n ts

  HaveRows-snoc :
      (n : ℕ) (ts : List (Table R)) (t : Table R)
      → HaveRows n ts
      → length (concat t) ≡ n
      → HaveRows n (ts ++ t ∷ [])
  HaveRows-snoc n [] t h e = (e, tt)
  HaveRows-snoc n (u ∷ ts) t h e = (h.0, HaveRows-snoc n ts t h.1 e)

  rows-snoc : (ts : List (Table R)) (t : Table R) → rows (ts ++ t ∷ []) ≡ rows ts ++ concat t
  rows-snoc ts t = rw (concat-append ts (t ∷ []), append-nil t, concat-append (concat ts) t)

  -- What was given out and what remains is what was taken in, in the same order; and every table
  -- that was given out has `n` rows.
  pub record IsFifo (n : ℕ) (r : Run R) : Type ℓ where
    pub valid : IsValid r.queue
    pub sized : r.queue.batch_size ≡ n
    pub order : rows r.given ++ remaining r.queue ≡ rows r.taken
    pub regular : HaveRows n r.given

  get-empty : (q : BatchingTableQueue R) → empty q ≡ true → get q ≡ raise assertion_error
  unfolding get
  get-empty q h = rw h

  call-IsFifo : {n : ℕ} {r : Run R} (c : Call R) → IsFifo n r → IsFifo n (call r c)
  unfolding call
  call-IsFifo {n} {r} (add t) h =
      let (v, e, s) = put-remaining t r.queue h.valid in
      record {
        valid = v;
        sized = s ∙ h.sized;
        order =
            rw
              (e, rows-snoc r.taken t, ← append_assoc (rows r.given) (remaining r.queue) (concat t))
              (ap (λ xs. xs ++ concat t) h.order);
        regular = h.regular;
      }
  call-IsFifo {n} {r} read h = elim (Bool-cases (empty r.queue)) [
    | inl none_left ↦ rw (get-empty r.queue none_left) h
    | inr some_left ↦ elim (dec_lt 0 r.queue.batch_size) [
      | no none_wanted ↦
          let z : r.queue.batch_size ≡ 0 = omega arith in rw (get-no_rows r.queue z some_left) h
      | yes some_wanted ↦
          let (t, q, got, v, front, size, back, s) =
            get-remaining r.queue h.valid some_left some_wanted in
          rw got (record {
            valid = v;
            sized = s ∙ h.sized;
            order = rw (rows-snoc r.given t, append_assoc, front, back, take-append-drop) h.order;
            regular = HaveRows-snoc n r.given t h.regular (size ∙ h.sized);
          })
    ]
  ]

  run_from-IsFifo :
      {n : ℕ} (cs : List (Call R)) {r : Run R} → IsFifo n r → IsFifo n (foldl call r cs)
  run_from-IsFifo [] h = h
  run_from-IsFifo (c ∷ cs) h = run_from-IsFifo cs (call-IsFifo c h)

  -- Whatever tables are put and however they are cut into record batches, in any order of calls:
  -- the rows that come out, followed by those that remain, are the rows that were put, in the same
  -- order, and every table that comes out has exactly `batch_size` rows.
  pub run-IsFifo : (batch_size : ℕ) (cs : List (Call R)) → IsFifo batch_size (run batch_size cs)
  unfolding run init
  run-IsFifo batch_size cs =
      run_from-IsFifo cs
        (record { valid = init-IsValid batch_size; sized = refl; order = refl; regular = tt })
