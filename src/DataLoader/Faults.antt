-- ===== src/DataLoader/Faults.antt =====
-- Two faults of the loader, and how it refuses to be iterated.
use Prim.Native.String.{String}
use petastorm.Prelude.{
  ℕ, zero, suc, ◌+◌, ◌-◌, ◌≤◌, ◌<◌, ◌≡◌, refl, ◌∙◌, inl, inr, true, false, Option, some, none, List,
  [], ◌∷◌, ◌++◌, map, length, Result, ok, raise, arith, ◌==◌, ◌⊎◌, if◌then◌else◌, value_error,
  runtime_error, Error,
}
use petastorm.ShufflingBuffer.Source.{Randint}
use petastorm.ShufflingBuffer.Random
use petastorm.ShufflingBuffer.Random.{RandomShufflingBuffer}
use petastorm.ShufflingBuffer.Random.Contents.{Holds, init-Holds, retrieve-Holds, add_many-Holds}
use petastorm.ShufflingBuffer.Random.Errors.{retrieve_empty}
use petastorm.ShufflingBuffer.Instances.{random_buffer}
use petastorm.DataLoader.{
  Row, Sample, Item, State, DataLoader, pass, iter, iter_impl, feed, yield_batches, group, keys,
  to_row,
}
use petastorm.DataLoader.Chunks.{chunk}
use petastorm.DataLoader.Passes.{Accepted, all_items}
use petastorm.ShufflingBuffer.Interface.{ShufflingBufferBase}
use petastorm.DataLoader.Loaders.{all_batches, pass_in_order}

module _ {V C : Type 0} (collate_fn : List (Row V) → C) (rng : ℕ → Randint)
    (sanitize : Sample V → Result (Sample V)) (extra_capacity : ℕ) where
  -- A loader whose last iteration failed, or that is being iterated, is not iterated again: the
  -- attempt raises a RuntimeError and changes nothing.
  pub iter_refused :
      (d : DataLoader V) (samples : List (Sample V))
      → ((e : Error) × (d.error ≡ some e)) ⊎ (d.in_iter ≡ some true)
      → iter collate_fn rng sanitize extra_capacity d samples ≡ (d, raise runtime_error)
  unfolding iter
  iter_refused d samples h = ground arith

  -- An iteration that gives a result is the pass, and keeps the rows that the pass left.
  pub iter-pass :
      (d : DataLoader V) (samples : List (Sample V)) (out : List C) (acc : List (Row V))
      → d.error ≡ none
      → (d.in_iter ≡ none) ⊎ (d.in_iter ≡ some false)
      → pass collate_fn rng sanitize extra_capacity d samples ≡ ok (out, acc)
      → iter collate_fn rng sanitize extra_capacity d samples
        ≡ (record d { batch_acc = acc; in_iter = some false }, ok out)
  unfolding iter
  iter-pass d samples out acc clean idle passes = ground (arith, passes)

  -- For a new loader without a shuffling queue and at least one sample, all of them sanitized
  -- without an error and with the same keys, the rows that the last partial batch of one pass held
  -- come again: the next pass over the same reader yields them a second time, in front of the rows
  -- of the reader.
  pub second_pass :
      (d : DataLoader V) (r : Sample V) (rest : List (Sample V)) (ks : List String) (limit : ℕ)
      → d.shuffling_queue_capacity ≡ 0
      → d.batch_acc ≡ []
      → d.in_iter ≡ none
      → d.error ≡ none
      → Accepted sanitize ks limit (r ∷ rest)
      → (let rows = map (to_row ks) (all_items sanitize (r ∷ rest)) in
          (iter collate_fn rng sanitize extra_capacity
            (iter collate_fn rng sanitize extra_capacity d (r ∷ rest)).0
            (r ∷ rest)).1
          ≡ ok (
              all_batches collate_fn rng sanitize extra_capacity ks d.batch_size
                (chunk d.batch_size [] rows).1
                rows))
  second_pass d r rest ks limit no_queue fresh idle clean ready =
      let once =
        iter-pass d (r ∷ rest) _ _ clean (inl idle)
          (pass_in_order collate_fn rng sanitize extra_capacity ks d r rest limit no_queue ready) in
      let d' = record d {
        batch_acc =
            (chunk d.batch_size d.batch_acc (map (to_row ks) (all_items sanitize (r ∷ rest)))).1;
        in_iter = some false;
      } in
      let twice =
        iter-pass d' (r ∷ rest) _ _ clean (inr refl) (
          pass_in_order collate_fn rng sanitize extra_capacity ks d' r rest limit no_queue ready) in
      rw (once, twice, fresh)

  -- A buffer without a minimum says that it can be read, empty or not.
  no_minimum-readable :
      (b : RandomShufflingBuffer (Item V)) → b.min_after_dequeue ≡ 0 → Random.can_retrieve b ≡ true
  unfolding Random.can_retrieve
  no_minimum-readable b min = ground arith

  retrieve-minimum :
      (source : Randint) (b b' : RandomShufflingBuffer (Item V)) (x : Option (Item V))
      → Random.retrieve source b ≡ ok (x, b')
      → (b'.min_after_dequeue ≡ b.min_after_dequeue) × (b'.size ≡ b.size - 1)
  unfolding Random.retrieve
  retrieve-minimum source b b' x e = ground arith

  retrieve-none_left :
      (source : Randint) (b : RandomShufflingBuffer (Item V))
      → Holds b []
      → b.min_after_dequeue ≡ 0
      → Random.retrieve source b ≡ raise value_error
  retrieve-none_left source b h min = ground (arith, retrieve_empty b source h.counted)

  module _ (I : ShufflingBufferBase (Item V)) (n : ℕ) (fuel : ℕ) (ks : List String)
      (s : State I collate_fn rng n) where
    retrieve_fails :
        (e : Error)
        → I.can_retrieve s.buffer ≡ true
        → I.retrieve (rng s.draws) s.buffer ≡ raise e
        → yield_batches I collate_fn rng n (suc fuel) ks s ≡ raise e
    unfolding yield_batches
    retrieve_fails e may fails = ground (arith, may, fails)

    later_fails :
        (e : Error) (x : Item V) (b : I.Buffer)
        → I.can_retrieve s.buffer ≡ true
        → I.retrieve (rng s.draws) s.buffer ≡ ok (some x, b)
        → ((t : State I collate_fn rng n)
            → t.buffer ≡ b
            → yield_batches I collate_fn rng n fuel ks t ≡ raise e)
        → yield_batches I collate_fn rng n (suc fuel) ks s ≡ raise e
    unfolding yield_batches
    later_fails e x b may got fails = ground (
      arith,
      may,
      got,
      fails
          (record {
            buffer = b;
            batch_acc =
                if length (s.batch_acc ++ to_row ks x ∷ []) == n
                then []
                else s.batch_acc ++ to_row ks x ∷ [];
            draws = s.draws + 1;
          })
          refl,
    )

  -- With a minimum of 0 the loop of `_yield_batches` never sees the end of the rows: it goes on to
  -- retrieve from an empty buffer.
  pub yield_batches_overrun :
      (n fuel : ℕ) (ks : List String) (s : State random_buffer collate_fn rng n)
      (xs : List (Item V))
      → Holds s.buffer xs
      → s.buffer.min_after_dequeue ≡ 0
      → length xs < fuel
      → yield_batches random_buffer collate_fn rng n fuel ks s ≡ raise value_error
  yield_batches_overrun n zero ks s xs h min less = absurd (omega arith)
  yield_batches_overrun n (suc fuel) ks s [] h min less =
      retrieve_fails random_buffer n fuel ks s value_error (no_minimum-readable s.buffer min)
        (retrieve-none_left (rng s.draws) s.buffer h min)
  yield_batches_overrun n (suc fuel) ks s (y ∷ xs) h min less =
      let may = no_minimum-readable s.buffer min in
      let (x, b', ys, got, h', same) =
        retrieve-Holds (rng s.draws) h may (omega (arith, h.counted)) in
      let (same_min, less_one) = retrieve-minimum _ _ _ _ got in
      let fewer : length ys < fuel = omega (arith, h.counted, h'.counted, less_one) in
      later_fails random_buffer n fuel ks s value_error x b' may got
        (λ t e. yield_batches_overrun n fuel ks t ys (rw e h') (rw e (same_min ∙ min)) fewer)

  -- A pass ends with the error of the first sample's loop.
  first_fails :
      (n : ℕ) (e : Error) (s : State random_buffer collate_fn rng n) (r sample : Sample V)
      (rest : List (Sample V)) (b : RandomShufflingBuffer (Item V))
      → sanitize r ≡ ok sample
      → Random.add_many s.buffer (group sample) ≡ ok b
      → yield_batches random_buffer collate_fn rng n
          (b.size + 1)
          (keys sample)
          (record s { buffer = b })
        ≡ raise e
      → iter_impl random_buffer collate_fn rng n sanitize s (r ∷ rest) ≡ raise e
  unfolding iter_impl feed
  first_fails n e s r sample rest b clean added fails = rw (clean, added, fails)

  fresh_buffer :
      (new : List (Item V))
      → length new ≤ extra_capacity + 1
      → (b : RandomShufflingBuffer (Item V)) × (Random.add_many (Random.init 1 0 extra_capacity) new
          ≡ ok b)
        × Holds b new
        × (b.min_after_dequeue ≡ 0)
  unfolding Random.init Random.can_add Random.add_many
  fresh_buffer new fits =
      let (b, added, h) = add_many-Holds new (init-Holds 1 0 extra_capacity) refl (omega arith) in
      (b, added, h, ground (arith, added))

  -- With a shuffling queue of a single row, a pass over at least one sample, all of them sanitized
  -- without an error, with the same keys and within the extra capacity and one, raises the
  -- ValueError of numpy's empty range.
  pub capacity_one :
      (d : DataLoader V) (r : Sample V) (rest : List (Sample V)) (ks : List String)
      → d.shuffling_queue_capacity ≡ 1
      → Accepted sanitize ks (extra_capacity + 1) (r ∷ rest)
      → pass collate_fn rng sanitize extra_capacity d (r ∷ rest) ≡ raise value_error
  unfolding pass
  capacity_one d r rest ks one ready =
      let (sample, clean, same_keys, fits) = ready.0 in
      let (b, added, h, min) = fresh_buffer (group sample) fits in
      let n = d.batch_size in
      let fails =
        first_fails n value_error
          (record { buffer = Random.init 1 0 extra_capacity; batch_acc = d.batch_acc; draws = 0 }) r
          sample rest b clean added
          (yield_batches_overrun n (b.size + 1) (keys sample)
            (record { buffer = b; batch_acc = d.batch_acc; draws = 0 }) (group sample) h min
            (omega (arith, h.counted))) in
      rw (one, fails)
