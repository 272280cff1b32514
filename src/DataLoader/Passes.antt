-- ===== src/DataLoader/Passes.antt =====
-- A whole pass over a data loader.
use Prim.Native.String.{String}
use mathlib.Core.Path.{subst}
use petastorm.Prelude.{
  ℕ, ◌+◌, ◌≤◌, ◌≡◌, refl, ap, ◌∙◌, sym, true, false, List, [], ◌∷◌, ◌++◌, map, map-append,
  append_assoc, append-nil, length, Result, ok, raise, arith,
}
use petastorm.ShufflingBuffer.Source.{Randint}
use petastorm.ShufflingBuffer.Interface.{ShufflingBufferBase, IsBuffer}
use petastorm.DataLoader.{
  Row, Sample, Item, State, keys, group, yield_batches, feed, iter_impl, to_row, last_batch,
}
use petastorm.DataLoader.Chunks.{chunk, chunk-append}
use petastorm.DataLoader.Drain.{Drained, yield_batches-Drained}

-- The samples of the reader once they are sanitized: all have the keys `ks`, and none has more rows
-- than the buffer takes at once.
abbrev pub Accepted :
    {V : Type 0} → (Sample V → Result (Sample V)) → List String → ℕ → List (Sample V) → Type 0
Accepted sanitize ks limit [] = Unit
Accepted {V} sanitize ks limit (r ∷ rest) =
    ((sample : Sample V) × (sanitize r ≡ ok sample)
      × (keys sample ≡ ks)
      × (length (group sample) ≤ limit))
    × Accepted sanitize ks limit rest

-- All items of the samples, in the reader's order.
abbrev pub all_items :
    {V : Type 0} → (Sample V → Result (Sample V)) → List (Sample V) → List (Item V)
all_items sanitize [] = []
all_items sanitize (r ∷ rest) = elim (sanitize r) [
  | ok sample ↦ group sample ++ all_items sanitize rest
  | raise e ↦ []
]

all_items-clean :
    {V : Type 0} (sanitize : Sample V → Result (Sample V)) (r : Sample V) (rest : List (Sample V))
    (sample : Sample V)
    → sanitize r ≡ ok sample
    → all_items sanitize (r ∷ rest) ≡ group sample ++ all_items sanitize rest
all_items-clean sanitize r rest sample clean = ground arith

module _ {V C : Type 0} (I : ShufflingBufferBase (Item V)) (limit : ℕ) (B : IsBuffer I limit)
    (collate_fn : List (Row V) → C) (rng : ℕ → Randint) (n : ℕ)
    (sanitize : Sample V → Result (Sample V)) (ks : List String) where
  abbrev S : Type 0
  S = State I collate_fn rng n

  abbrev rows : List (Item V) → List (Row V)
  rows = map (to_row ks)

  yields : List (Row V) → List (Row V) → List C
  yields acc xs = map collate_fn (chunk n acc xs).0

  Same-append_left : (us xs ys : List (Item V)) → B.Same xs ys → B.Same (us ++ xs) (us ++ ys)
  Same-append_left [] xs ys h = h
  Same-append_left (u ∷ us) xs ys h = B.Same-cons u _ _ (Same-append_left us xs ys h)

  -- Two stretches of rows in turn.
  batches-append :
      (acc xs ys : List (Row V))
      → map collate_fn (chunk n acc (xs ++ ys)).0
        ≡ map collate_fn (chunk n acc xs).0 ++ map collate_fn (chunk n (chunk n acc xs).1 ys).0
  batches-append acc xs ys = rw (chunk-append n acc xs ys, map-append)

  -- After the samples: the items `out` left the buffer, and `kept` are still there.
  record Fed (s : S) (xs items : List (Item V)) (r : Result (List C × List String × S))
      : Type 0 where
    out : List (Item V)
    kept : List (Item V)
    after : S
    runs : r ≡ ok (map collate_fn (chunk n s.batch_acc (rows out)).0, ks, after)
    acc : after.batch_acc ≡ (chunk n s.batch_acc (rows out)).1
    holds : B.Holds after.buffer kept
    phase : B.Phase false after.buffer
    stopped : I.can_retrieve after.buffer ≡ false
    same : B.Same (out ++ kept) (xs ++ items)

  feed_end :
      (s : S) (xs : List (Item V))
      → B.Holds s.buffer xs
      → B.Phase false s.buffer
      → I.can_retrieve s.buffer ≡ false
      → Fed s xs [] (feed I collate_fn rng n sanitize ks s [])
  unfolding feed chunk
  feed_end s xs h p stopped = record {
    out = [];
    kept = xs;
    after = s;
    runs = refl;
    acc = refl;
    holds = h;
    phase = p;
    stopped = stopped;
    same = rw append-nil (B.Same-refl xs);
  }

  split_batches :
      (s t : S) (us vs : List (Item V))
      → t.batch_acc ≡ (chunk n s.batch_acc (rows us)).1
      → map collate_fn (chunk n s.batch_acc (rows (us ++ vs))).0
        ≡ map collate_fn (chunk n s.batch_acc (rows us)).0
          ++ map collate_fn (chunk n t.batch_acc (rows vs)).0
  split_batches s t us vs e = rw (map-append, e) (batches-append s.batch_acc (rows us) (rows vs))

  split_rows :
      (s t : S) (us vs : List (Item V))
      → t.batch_acc ≡ (chunk n s.batch_acc (rows us)).1
      → (chunk n s.batch_acc (rows (us ++ vs))).1 ≡ (chunk n t.batch_acc (rows vs)).1
  split_rows s t us vs e = rw (map-append, e, chunk-append n s.batch_acc (rows us) (rows vs))

  Same-stages :
      (xs g items us ks' vs kept : List (Item V))
      → B.Same (us ++ ks') (xs ++ g)
      → B.Same (vs ++ kept) (ks' ++ items)
      → B.Same ((us ++ vs) ++ kept) (xs ++ (g ++ items))
  Same-stages xs g items us ks' vs kept p q =
      rw (append_assoc us vs kept, ← append_assoc xs g items)
        (B.Same-trans _ _ _ (Same-append_left us _ _ q)
          (rw (← append_assoc us ks' items) (B.Same-append_right _ _ items p)))

  feed_step :
      (s : S) (xs items : List (Item V)) (r : Sample V) (rest : List (Sample V)) (sample : Sample V)
      (b : I.Buffer)
      → sanitize r ≡ ok sample
      → keys sample ≡ ks
      → I.add_many s.buffer (group sample) ≡ ok b
      → (d : Drained I limit B collate_fn rng n ks false
          (record s { buffer = b })
          (xs ++ group sample)
          (yield_batches I collate_fn rng n (I.size b + 1) ks (record s { buffer = b })))
      → Fed d.after d.kept items (feed I collate_fn rng n sanitize ks d.after rest)
      → Fed s xs (group sample ++ items) (feed I collate_fn rng n sanitize ks s (r ∷ rest))
  unfolding feed
  feed_step s xs items r rest sample b clean same_keys added d f = record {
    out = d.out ++ f.out;
    kept = f.kept;
    after = f.after;
    runs =
        rw (clean, added, same_keys, d.runs, f.runs)
          (ap (λ out. ok (out, ks, f.after)) (sym (split_batches s d.after d.out f.out d.acc)));
    acc = f.acc ∙ sym (split_rows s d.after d.out f.out d.acc);
    holds = f.holds;
    phase = f.phase;
    stopped = f.stopped;
    same = Same-stages xs (group sample) items d.out d.kept f.out f.kept d.same f.same;
  }

  feed-Fed :
      (samples : List (Sample V)) (s : S) (xs : List (Item V))
      → Accepted sanitize ks limit samples
      → B.Holds s.buffer xs
      → B.Phase false s.buffer
      → I.can_retrieve s.buffer ≡ false
      → Fed s xs (all_items sanitize samples) (feed I collate_fn rng n sanitize ks s samples)
  feed-Fed [] s xs ready h p stopped = feed_end s xs h p stopped
  feed-Fed (r ∷ rest) s xs ready h p stopped =
      let (sample, clean, same_keys, fits) = ready.0 in
      let (b, added, h', p') = B.adds s.buffer xs (group sample) h p stopped fits in
      let d =
        yield_batches-Drained I limit B collate_fn rng n (I.size b + 1) ks false
          (record s { buffer = b }) (xs ++ group sample) h' p' (omega (arith, B.sized b _ h')) in
      subst (λ items. Fed s xs items (feed I collate_fn rng n sanitize ks s (r ∷ rest)))
        (sym (all_items-clean sanitize r rest sample clean))
        (feed_step s xs (all_items sanitize rest) r rest sample b clean same_keys added d
          (feed-Fed rest d.after d.kept ready.1 d.holds d.phase d.stopped))

  -- The outcome of a pass, from the rows `acc` that the pass before it left: `out` are all the items
  -- of the reader, in an order that the buffer allows.
  pub record Passed (s : S) (items : List (Item V)) (r : Result (List C × S)) : Type 0 where
    pub out : List (Item V)
    pub after : S
    pub runs :
        r
        ≡ ok (
          map collate_fn (chunk n s.batch_acc (rows out)).0
              ++ last_batch collate_fn (chunk n s.batch_acc (rows out)).1,
          after,
        )
    pub same : B.Same out items
    pub kept_rows : after.batch_acc ≡ (chunk n s.batch_acc (rows out)).1

  -- The keys at hand do not matter where there is a sample.
  feed_keys :
      (s : S) (r : Sample V) (rest : List (Sample V))
      → feed I collate_fn rng n sanitize [] s (r ∷ rest)
        ≡ feed I collate_fn rng n sanitize ks s (r ∷ rest)
  unfolding feed
  feed_keys s r rest = refl

  one_stretch :
      (s t u : S) (us vs : List (Item V))
      → t.batch_acc ≡ (chunk n s.batch_acc (rows us)).1
      → u.batch_acc ≡ (chunk n t.batch_acc (rows vs)).1
      → map collate_fn (chunk n s.batch_acc (rows us)).0
          ++ (map collate_fn (chunk n t.batch_acc (rows vs)).0 ++ last_batch collate_fn u.batch_acc)
        ≡ map collate_fn (chunk n s.batch_acc (rows (us ++ vs))).0
          ++ last_batch collate_fn (chunk n s.batch_acc (rows (us ++ vs))).1
  one_stretch s t u us vs e f =
      rw (split_batches s t us vs e, split_rows s t us vs e, ← f)
        (sym (append_assoc (map collate_fn (chunk n s.batch_acc (rows us)).0) _ _))

  finish_pass :
      (s : S) (items : List (Item V)) (r : Sample V) (rest : List (Sample V))
      → (f : Fed s [] items (feed I collate_fn rng n sanitize ks s (r ∷ rest)))
      → Drained I limit B collate_fn rng n ks true
          (record f.after { buffer = I.finish f.after.buffer })
          f.kept
          (yield_batches I collate_fn rng n
            (I.size (I.finish f.after.buffer) + 1)
            ks
            (record f.after { buffer = I.finish f.after.buffer }))
      → Passed s items (iter_impl I collate_fn rng n sanitize s (r ∷ rest))
  unfolding iter_impl
  finish_pass s items r rest f d =
      let nothing_left = B.drains d.after.buffer d.kept d.holds d.phase d.stopped in
      record {
        out = f.out ++ d.out;
        after = d.after;
        runs =
            rw (feed_keys s r rest, f.runs, d.runs)
              (ap (λ out. ok (out, d.after))
                (one_stretch s f.after d.after f.out d.out f.acc d.acc));
        same =
            B.Same-trans _ _ _
              (Same-append_left f.out _ _ (
                subst (λ kept. B.Same kept f.kept)
                  (ap (λ ys. d.out ++ ys) nothing_left ∙ append-nil d.out) d.same))
              f.same;
        kept_rows = d.acc ∙ sym (split_rows s f.after f.out d.out f.acc);
      }

  -- A pass over at least one sample, whichever buffer, collation and draws: nothing is raised, and
  -- no loop runs out of fuel. The batches are those into which the rows that the last pass left and
  -- then all rows of the reader fall, in an order that the buffer allows, with a last partial batch
  -- where rows are left. Those rows stay in `_batch_acc`.
  pub iter_impl-Passed :
      (r : Sample V) (rest : List (Sample V)) (s : S)
      → Accepted sanitize ks limit (r ∷ rest)
      → B.Holds s.buffer []
      → B.Phase false s.buffer
      → I.can_retrieve s.buffer ≡ false
      → Passed s
          (all_items sanitize (r ∷ rest))
          (iter_impl I collate_fn rng n sanitize s (r ∷ rest))
  iter_impl-Passed r rest s ready h p stopped =
      let f = feed-Fed (r ∷ rest) s [] ready h p stopped in
      let (h', p') = B.finishes f.after.buffer f.kept f.holds f.phase in
      finish_pass s (all_items sanitize (r ∷ rest)) r rest f (
        yield_batches-Drained I limit B collate_fn rng n (I.size (I.finish f.after.buffer) + 1) ks
          true (record f.after { buffer = I.finish f.after.buffer }) f.kept h' p'
          (omega (arith, B.sized (I.finish f.after.buffer) f.kept h')))
