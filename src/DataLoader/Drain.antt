-- ===== src/DataLoader/Drain.antt =====
-- What `_yield_batches` takes from the buffer and yields.
use Prim.Native.String.{String}
use petastorm.Prelude.{
  ℕ, zero, suc, ◌+◌, ◌<◌, ◌≡◌, refl, Bool, true, false, some, List, [], ◌∷◌, ◌++◌, map, length,
  ◌==◌, if◌then◌else◌, Result, ok, arith, Bool-cases, inl, inr,
}
use petastorm.ShufflingBuffer.Source.{Randint}
use petastorm.ShufflingBuffer.Interface.{ShufflingBufferBase, IsBuffer}
use petastorm.DataLoader.{Row, Item, State, yield_batches, to_row}
use petastorm.DataLoader.Chunks.{chunk}

module _ {V C : Type 0} (I : ShufflingBufferBase (Item V)) (limit : ℕ) (B : IsBuffer I limit)
    (collate_fn : List (Row V) → C) (rng : ℕ → Randint) (n : ℕ) where
  abbrev pub LoaderState : Type 0
  LoaderState = State I collate_fn rng n

  -- The batches that the rows `xs` complete, and the rows that are left of them.
  abbrev pub batches : List (Row V) → List (Row V) → List C
  batches acc xs = map collate_fn (chunk n acc xs).0

  abbrev pub left_rows : List (Row V) → List (Row V) → List (Row V)
  left_rows acc xs = (chunk n acc xs).1

  -- The items `out` left the buffer, and `kept` are still there.
  pub record Drained (ks : List String) (done : Bool) (s : LoaderState) (xs : List (Item V))
      (r : Result (List C × LoaderState)) : Type 0 where
    pub out : List (Item V)
    pub kept : List (Item V)
    pub after : LoaderState
    pub runs : r ≡ ok (batches s.batch_acc (map (to_row ks) out), after)
    pub acc : after.batch_acc ≡ left_rows s.batch_acc (map (to_row ks) out)
    pub holds : B.Holds after.buffer kept
    pub phase : B.Phase done after.buffer
    pub stopped : I.can_retrieve after.buffer ≡ false
    pub same : B.Same (out ++ kept) xs

  -- The state after one row was retrieved.
  abbrev after_row : LoaderState → I.Buffer → Row V → LoaderState
  after_row s b x = record {
    buffer = b;
    batch_acc = if length (s.batch_acc ++ x ∷ []) == n then [] else s.batch_acc ++ x ∷ [];
    draws = s.draws + 1;
  }

  drain_step :
      (fuel : ℕ) (ks : List String) (done : Bool) (s : LoaderState) (xs ys : List (Item V))
      (x : Item V) (b : I.Buffer)
      → I.can_retrieve s.buffer ≡ true
      → I.retrieve (rng s.draws) s.buffer ≡ ok (some x, b)
      → B.Same (x ∷ ys) xs
      → Drained ks done
          (after_row s b (to_row ks x))
          ys
          (yield_batches I collate_fn rng n fuel ks (after_row s b (to_row ks x)))
      → Drained ks done s xs (yield_batches I collate_fn rng n (suc fuel) ks s)
  unfolding yield_batches chunk
  drain_step fuel ks done s xs ys x b may got same d = record {
    out = x ∷ d.out;
    kept = d.kept;
    after = d.after;
    runs = ground (arith, may, got, d.runs);
    acc = ground (arith, d.acc);
    holds = d.holds;
    phase = d.phase;
    stopped = d.stopped;
    same = B.Same-trans _ _ _ (B.Same-cons x _ _ d.same) same;
  }

  drain_stop :
      (fuel : ℕ) (ks : List String) (done : Bool) (s : LoaderState) (xs : List (Item V))
      → B.Holds s.buffer xs
      → B.Phase done s.buffer
      → I.can_retrieve s.buffer ≡ false
      → Drained ks done s xs (yield_batches I collate_fn rng n (suc fuel) ks s)
  unfolding yield_batches chunk
  drain_stop fuel ks done s xs h p stopped = record {
    out = [];
    kept = xs;
    after = s;
    runs = ground (arith, stopped);
    acc = refl;
    holds = h;
    phase = p;
    stopped = stopped;
    same = B.Same-refl xs;
  }

  -- With fuel for each row and one more round, `_yield_batches` takes rows until the buffer gives no
  -- more, and yields the batches that these rows complete.
  pub yield_batches-Drained :
      (fuel : ℕ) (ks : List String) (done : Bool) (s : LoaderState) (xs : List (Item V))
      → B.Holds s.buffer xs
      → B.Phase done s.buffer
      → length xs < fuel
      → Drained ks done s xs (yield_batches I collate_fn rng n fuel ks s)
  yield_batches-Drained zero ks done s xs h p less = absurd (omega arith)
  yield_batches-Drained (suc fuel) ks done s xs h p less =
      elim (Bool-cases (I.can_retrieve s.buffer)) [
        | inl may ↦
            let (x, b, ys, got, h', p', same, size) =
              B.retrieves done (rng s.draws) s.buffer xs h p may in
            drain_step fuel ks done s xs ys x b may got same (
              yield_batches-Drained fuel ks done (after_row s b (to_row ks x)) ys h' p'
                (omega arith))
        | inr stopped ↦ drain_stop fuel ks done s xs h p stopped
      ]
