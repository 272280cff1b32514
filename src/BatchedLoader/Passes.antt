-- ===== src/BatchedLoader/Passes.antt =====
-- A whole pass over a batched data loader.
use Prim.Native.String.{String}
use mathlib.Core.Path.{subst}
use petastorm.Prelude.{
  ℕ, ◌+◌, ◌≤◌, ◌<◌, ◌≡◌, refl, ap, true, false, List, [], ◌∷◌, ◌++◌, map-append, append_assoc,
  append-nil, length, concat, concat-append, Result, ok, arith,
}
use petastorm.Tensors.Randperm.{Randperm}
use petastorm.BatchedBuffer.Columns.{columns}
use petastorm.BatchedBuffer.Interface.{BatchedShufflingBufferBase, IsBuffer}
use petastorm.DataLoader.{Row, Sample, keys}
use petastorm.DataLoader.Chunks.{all_chunks, AllSized}
use petastorm.BatchedLoader.{State, tensors, yield_batches, feed, iter_impl}
use petastorm.BatchedLoader.Batches.{chunk-concat}
use petastorm.BatchedLoader.Drain.{dicts, Drained, yield_batches-Drained}

-- The samples of the reader once they are sanitized and transformed: their tensors are the columns of
-- the rows `groups`, all have the keys `ks`, and none has more rows than the buffer takes at once.
abbrev pub Tabular :
    {V R A : Type 0}
    → (Sample V → Result (Sample V))
    → (List V → Result (List A))
    → List (R → A)
    → List String
    → ℕ
    → List (Sample V)
    → List (List R)
    → Type 0
Tabular sanitize transform_fn projs ks limit [] [] = Unit
Tabular {V} sanitize transform_fn projs ks limit (r ∷ rest) (g ∷ groups) =
    ((sample : Sample V) × (sanitize r ≡ ok sample)
      × (keys sample ≡ ks)
      × (tensors transform_fn sample ≡ ok (columns projs g))
      × (length g ≤ limit))
    × Tabular sanitize transform_fn projs ks limit rest groups
Tabular sanitize transform_fn projs ks limit _ _ = ⊥

module _ {V R A : Type 0} (I : BatchedShufflingBufferBase A) (projs : List (R → A)) (n limit : ℕ)
    (full : 0 < n) (B : IsBuffer I projs n limit) (rng : ℕ → Randperm)
    (sanitize : Sample V → Result (Sample V)) (transform_fn : List V → Result (List A))
    (ks : List String) where
  yielded : List (List R) → List (Row (List A))
  yielded outs = dicts I projs n limit full B rng ks outs

  Sized-append :
      (xss yss : List (List R)) → AllSized n xss → AllSized n yss → AllSized n (xss ++ yss)
  Sized-append [] yss s t = t
  Sized-append (xs ∷ xss) yss (e, s) t = (e, Sized-append xss yss s t)

  -- After the samples: complete batches left the buffer, and `kept` are still there.
  record Fed (xs items : List R) (r : Result (List (Row (List A)) × List String × State I rng))
      : Type 0 where
    outs : List (List R)
    kept : List R
    after : State I rng
    runs : r ≡ ok (dicts I projs n limit full B rng ks outs, ks, after)
    holds : B.Holds after.buffer kept
    phase : B.Phase false after.buffer
    stopped : I.can_retrieve after.buffer ≡ false
    same : B.Same (concat outs ++ kept) (xs ++ items)
    sizes : AllSized n outs

  feed_end :
      (s : State I rng) (xs : List R)
      → B.Holds s.buffer xs
      → B.Phase false s.buffer
      → I.can_retrieve s.buffer ≡ false
      → Fed xs [] (feed I rng sanitize transform_fn ks s [])
  unfolding feed
  feed_end s xs h p stopped = record {
    outs = [];
    kept = xs;
    after = s;
    runs = refl;
    holds = h;
    phase = p;
    stopped = stopped;
    same = rw append-nil (B.Same-refl xs);
    sizes = tt;
  }

  Same-stages :
      (xs g items us ks' vs kept : List R)
      → B.Same (us ++ ks') (xs ++ g)
      → B.Same (vs ++ kept) (ks' ++ items)
      → B.Same ((us ++ vs) ++ kept) (xs ++ (g ++ items))
  Same-stages xs g items us ks' vs kept p q =
      rw (append_assoc us vs kept, ← append_assoc xs g items)
        (B.Same-trans _ _ _ (B.Same-append_left us _ _ q)
          (rw (← append_assoc us ks' items) (B.Same-append_right _ _ items p)))

  feed_step :
      (s : State I rng) (xs items g : List R) (r : Sample V) (rest : List (Sample V))
      (sample : Sample V) (b : I.Buffer)
      → sanitize r ≡ ok sample
      → keys sample ≡ ks
      → tensors transform_fn sample ≡ ok (columns projs g)
      → I.add_many s.buffer (columns projs g) ≡ ok b
      → (d : Drained I projs n limit full B rng ks false
          (xs ++ g)
          (yield_batches I rng (I.size b + 1) ks (record s { buffer = b })))
      → Fed d.kept items (feed I rng sanitize transform_fn ks d.after rest)
      → Fed xs (g ++ items) (feed I rng sanitize transform_fn ks s (r ∷ rest))
  unfolding feed
  feed_step s xs items g r rest sample b clean same_keys tabular added d f = record {
    outs = d.outs ++ f.outs;
    kept = f.kept;
    after = f.after;
    runs =
        rw (clean, tabular, added, same_keys, d.runs, f.runs)
          (ap (λ out. ok (out, ks, f.after)) (rw map-append));
    holds = f.holds;
    phase = f.phase;
    stopped = f.stopped;
    same =
        rw (concat-append d.outs)
          (Same-stages xs g items (concat d.outs) d.kept (concat f.outs) f.kept d.same f.same);
    sizes = Sized-append d.outs f.outs d.shape f.sizes;
  }

  feed-Fed :
      (samples : List (Sample V)) (groups : List (List R)) (s : State I rng) (xs : List R)
      → Tabular sanitize transform_fn projs ks limit samples groups
      → B.Holds s.buffer xs
      → B.Phase false s.buffer
      → I.can_retrieve s.buffer ≡ false
      → Fed xs (concat groups) (feed I rng sanitize transform_fn ks s samples)
  feed-Fed [] [] s xs ready h p stopped = feed_end s xs h p stopped
  feed-Fed (r ∷ rest) (g ∷ groups) s xs ready h p stopped =
      let (sample, clean, same_keys, tabular, fits) = ready.0 in
      let (b, added, h', p') = B.adds s.buffer xs g h p stopped fits in
      let d =
        yield_batches-Drained I projs n limit full B rng (I.size b + 1) ks false
          (record s { buffer = b }) (xs ++ g) h' p' (omega (arith, B.sized b _ h')) in
      feed_step s xs (concat groups) g r rest sample b clean same_keys tabular added d
        (feed-Fed rest groups d.after d.kept ready.1 d.holds d.phase d.stopped)
  feed-Fed [] (g ∷ groups) s xs ready h p stopped = absurd ready
  feed-Fed (r ∷ rest) [] s xs ready h p stopped = absurd ready

  -- The keys at the start do not matter when there is a sample.
  feed_keys :
      (s : State I rng) (r : Sample V) (rest : List (Sample V))
      → feed I rng sanitize transform_fn [] s (r ∷ rest)
        ≡ feed I rng sanitize transform_fn ks s (r ∷ rest)
  unfolding feed
  feed_keys s r rest = refl

  -- The outcome of a pass: the batches of `out`, which are the rows of the reader in an order that
  -- the buffer allows.
  pub record Passed (items : List R) (r : Result (List (Row (List A)))) : Type 0 where
    pub out : List R
    pub runs : r ≡ ok (dicts I projs n limit full B rng ks (all_chunks n [] out))
    pub same : B.Same out items

  pub iter_impl-Passed :
      (r : Sample V) (rest : List (Sample V)) (groups : List (List R)) (s : State I rng)
      → Tabular sanitize transform_fn projs ks limit (r ∷ rest) groups
      → B.Holds s.buffer []
      → B.Phase false s.buffer
      → I.can_retrieve s.buffer ≡ false
      → Passed (concat groups) (iter_impl I rng sanitize transform_fn s (r ∷ rest))
  unfolding iter_impl
  iter_impl-Passed r rest groups s ready h p stopped =
      let f = feed-Fed (r ∷ rest) groups s [] ready h p stopped in
      let (h', p') = B.finishes f.after.buffer f.kept f.holds f.phase in
      let d =
        yield_batches-Drained I projs n limit full B rng (I.size (I.finish f.after.buffer) + 1) ks
          true (record f.after { buffer = I.finish f.after.buffer }) f.kept h' p'
          (omega (arith, B.sized (I.finish f.after.buffer) f.kept h')) in
      let nothing_left : concat d.outs ++ d.kept ≡ concat d.outs =
        rw (B.drains d.after.buffer d.kept d.holds d.phase d.stopped)
          (append-nil (concat d.outs)) in
      record {
        out = concat f.outs ++ concat d.outs;
        runs =
            rw (feed_keys s r rest, f.runs, d.runs)
              (ap ok (
                rw (chunk-concat n f.outs (concat d.outs) full f.sizes, ← d.shape, map-append)
                  refl));
        same =
            B.Same-trans _ _ _
              (B.Same-append_left (concat f.outs) _ _
                (subst (λ us. B.Same us f.kept) nothing_left d.same))
              f.same;
      }
