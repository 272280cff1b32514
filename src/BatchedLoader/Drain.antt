-- ===== src/BatchedLoader/Drain.antt =====
-- What `_yield_batches` takes from a batched buffer and yields.
use Prim.Native.String.{String}
use petastorm.Prelude.{
  ℕ, zero, suc, ◌+◌, ◌≤◌, ◌<◌, ◌≡◌, min, Bool, true, false, List, [], ◌∷◌, ◌++◌, map, append_assoc,
  length, length-append, concat, Result, ok, arith, Bool-cases, inl, inr,
}
use petastorm.Tensors.Randperm.{Randperm}
use petastorm.BatchedBuffer.Columns.{columns}
use petastorm.BatchedBuffer.Interface.{BatchedShufflingBufferBase, IsBuffer}
use petastorm.DataLoader.{Row, zip_keys}
use petastorm.BatchedLoader.{State, yield_batches}
use petastorm.BatchedLoader.Batches.{Shape, Shape-nil, Shape-cons}

module _ {R A : Type 0} (I : BatchedShufflingBufferBase A) (projs : List (R → A)) (n limit : ℕ)
    (full : 0 < n) (B : IsBuffer I projs n limit) (rng : ℕ → Randperm) where
  -- Batches of rows as the dictionaries of their columns.
  abbrev pub dicts : List String → List (List R) → List (Row (List A))
  dicts ks outs = map (λ rows. zip_keys ks (columns projs rows)) outs

  -- The rows of the batches `outs` left the buffer, and `kept` are still there.
  pub record Drained (ks : List String) (done : Bool) (xs : List R)
      (r : Result (List (Row (List A)) × State I rng)) : Type 0 where
    pub outs : List (List R)
    pub kept : List R
    pub after : State I rng
    pub runs : r ≡ ok (dicts ks outs, after)
    pub holds : B.Holds after.buffer kept
    pub phase : B.Phase done after.buffer
    pub stopped : I.can_retrieve after.buffer ≡ false
    pub same : B.Same (concat outs ++ kept) xs
    pub total : length (concat outs) + length kept ≡ length xs
    pub shape : Shape n done outs

  drain_step :
      (fuel : ℕ) (ks : List String) (done : Bool) (s : State I rng) (xs out ys : List R)
      (b : I.Buffer)
      → I.can_retrieve s.buffer ≡ true
      → I.retrieve (rng s.draws) s.buffer ≡ ok (columns projs out, b)
      → B.Same (out ++ ys) xs
      → length out ≡ min n (length xs)
      → length out + length ys ≡ length xs
      → 0 < length xs
      → (done ≡ false → n ≤ length xs)
      → Drained ks done ys
          (yield_batches I rng fuel ks (record { buffer = b; draws = s.draws + 1 }))
      → Drained ks done xs (yield_batches I rng (suc fuel) ks s)
  unfolding yield_batches
  drain_step fuel ks done s xs out ys b may got same size total pos enough d = record {
    outs = out ∷ d.outs;
    kept = d.kept;
    after = d.after;
    runs = ground (arith, may, got, d.runs);
    holds = d.holds;
    phase = d.phase;
    stopped = d.stopped;
    same =
        rw (append_assoc out (concat d.outs) d.kept)
          (B.Same-trans _ _ _ (B.Same-append_left out _ _ d.same) same);
    total = omega (arith, total, d.total, length-append out (concat d.outs));
    shape =
        Shape-cons n done out d.outs (length xs) full pos size enough
          (omega (arith, total, d.total)) d.shape;
  }

  drain_stop :
      (fuel : ℕ) (ks : List String) (done : Bool) (s : State I rng) (xs : List R)
      → B.Holds s.buffer xs
      → B.Phase done s.buffer
      → I.can_retrieve s.buffer ≡ false
      → Drained ks done xs (yield_batches I rng (suc fuel) ks s)
  unfolding yield_batches
  drain_stop fuel ks done s xs h p stopped = record {
    outs = [];
    kept = xs;
    after = s;
    runs = ground (arith, stopped);
    holds = h;
    phase = p;
    stopped = stopped;
    same = B.Same-refl xs;
    total = omega arith;
    shape = Shape-nil R n done;
  }

  -- With fuel for each row and one more round, `_yield_batches` takes rows until the buffer gives no
  -- more.
  pub yield_batches-Drained :
      (fuel : ℕ) (ks : List String) (done : Bool) (s : State I rng) (xs : List R)
      → B.Holds s.buffer xs
      → B.Phase done s.buffer
      → length xs < fuel
      → Drained ks done xs (yield_batches I rng fuel ks s)
  yield_batches-Drained zero ks done s xs h p less = absurd (omega arith)
  yield_batches-Drained (suc fuel) ks done s xs h p less =
      elim (Bool-cases (I.can_retrieve s.buffer)) [
        | inl may ↦
            let (out, ys, b, got, h', p', same, size, total, pos, enough) =
              B.retrieves done (rng s.draws) s.buffer xs h p may in
            drain_step fuel ks done s xs out ys b may got same size total pos enough (
              yield_batches-Drained fuel ks done (record { buffer = b; draws = s.draws + 1 }) ys h'
                p' (omega (arith, full, size, total, pos, less)))
        | inr stopped ↦ drain_stop fuel ks done s xs h p stopped
      ]
