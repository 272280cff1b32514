-- ===== src/DataLoader/Loaders.antt =====
-- A pass of each kind of loader.
use Prim.Native.String.{String}
use mathlib.Core.List.{Perm}
use petastorm.Prelude.{
  map-append, [], ℕ, ◌+◌, ◌-◌, ◌≤◌, ◌<◌, ◌≡◌, refl, true, false, List, ◌∷◌, ◌++◌, map, Result, ok,
  arith, ltb,
}
use petastorm.ShufflingBuffer.Source.{Randint}
use petastorm.ShufflingBuffer.Noop
use petastorm.ShufflingBuffer.Random
use petastorm.ShufflingBuffer.Random.Contents.{init-Holds}
use petastorm.ShufflingBuffer.Instances.{
  noop_buffer, random_buffer, noop-IsBuffer, random-IsBuffer, IsSetUp,
}
use petastorm.DataLoader.{Row, Sample, Item, DataLoader, pass, to_row, last_batch}
use petastorm.DataLoader.Chunks.{all_chunks, left_batch, chunk}
use petastorm.DataLoader.Passes.{Accepted, all_items, iter_impl-Passed}

module _ {V C : Type 0} (collate_fn : List (Row V) → C) (rng : ℕ → Randint)
    (sanitize : Sample V → Result (Sample V)) (extra_capacity : ℕ) (ks : List String) where
  -- The batches into which the rows `acc` and then `xs` fall, the last partial one included.
  abbrev pub all_batches : ℕ → List (Row V) → List (Row V) → List C
  all_batches n acc xs = map collate_fn (all_chunks n acc xs)

  last_batch-left_batch :
      (rest : List (Row V)) → last_batch collate_fn rest ≡ map collate_fn (left_batch rest)
  unfolding left_batch last_batch
  last_batch-left_batch [] = refl
  last_batch-left_batch (x ∷ rest) = refl

  last_batch-all_chunks :
      (n : ℕ) (acc xs : List (Row V))
      → map collate_fn (chunk n acc xs).0 ++ last_batch collate_fn (chunk n acc xs).1
        ≡ all_batches n acc xs
  last_batch-all_chunks n acc xs = rw (last_batch-left_batch (chunk n acc xs).1, map-append)

  noop_closed : Noop.can_retrieve (Noop.init {A = Item V}) ≡ false
  unfolding Noop.can_retrieve Noop.init
  noop_closed = refl

  -- Without a shuffling queue, and for at least one sample, all of them sanitized without an error
  -- and with the same keys: a pass yields the rows of the reader in the reader's order, in batches
  -- of `batch_size` and a last partial one, after the rows that an earlier pass left in
  -- `_batch_acc`.
  pub pass_in_order :
      (d : DataLoader V) (r : Sample V) (rest : List (Sample V)) (limit : ℕ)
      → d.shuffling_queue_capacity ≡ 0
      → Accepted sanitize ks limit (r ∷ rest)
      → (let rows = map (to_row ks) (all_items sanitize (r ∷ rest)) in
          pass collate_fn rng sanitize extra_capacity d (r ∷ rest)
          ≡ ok (all_batches d.batch_size d.batch_acc rows, (chunk d.batch_size d.batch_acc rows).1))
  unfolding pass noop-IsBuffer Noop.init
  pass_in_order d r rest limit none_shuffled ready =
      let p =
        iter_impl-Passed noop_buffer limit (noop-IsBuffer limit) collate_fn rng d.batch_size
          sanitize ks r rest (record { buffer = Noop.init; batch_acc = d.batch_acc; draws = 0 })
          ready refl tt noop_closed in
      rw (none_shuffled, p.runs, p.kept_rows, p.same, last_batch-all_chunks)

  set_up :
      (cap extra limit : ℕ)
      → 1 < cap
      → limit ≤ extra + 1
      → IsSetUp limit false (Random.init {A = Item V} cap (cap - 1) extra)
        × (Random.can_retrieve (Random.init {A = Item V} cap (cap - 1) extra) ≡ false)
  unfolding Random.init Random.can_retrieve
  set_up cap extra limit more fits = (
    record { phase = refl; minimum = omega arith; below = omega arith; slack = fits },
    ground arith,
  )

  -- With a shuffling queue of two rows or more, and for at least one sample, all of them sanitized
  -- without an error, with the same keys and with no more rows than the extra capacity and one: a
  -- pass yields the rows of the reader in some order, each as often as the reader gives it, in
  -- batches of `batch_size` and a last partial one, after the rows that an earlier pass left.
  pub pass_shuffled :
      (d : DataLoader V) (r : Sample V) (rest : List (Sample V)) (limit : ℕ)
      → 1 < d.shuffling_queue_capacity
      → limit ≤ extra_capacity + 1
      → Accepted sanitize ks limit (r ∷ rest)
      → (out : List (Item V)) × Perm out (all_items sanitize (r ∷ rest))
        × (pass collate_fn rng sanitize extra_capacity d (r ∷ rest)
            ≡ ok (
              all_batches d.batch_size d.batch_acc (map (to_row ks) out),
              (chunk d.batch_size d.batch_acc (map (to_row ks) out)).1,
            ))
  unfolding pass random-IsBuffer
  pass_shuffled d r rest limit more fits ready =
      let cap = d.shuffling_queue_capacity in
      let (up, shut) = set_up cap extra_capacity limit more fits in
      let p =
        iter_impl-Passed random_buffer limit (random-IsBuffer limit) collate_fn rng d.batch_size
          sanitize ks r rest
          (record {
            buffer = Random.init cap (cap - 1) extra_capacity;
            batch_acc = d.batch_acc;
            draws = 0;
          })
          ready (init-Holds cap (cap - 1) extra_capacity) up shut in
      let shuffled : ltb 0 cap ≡ true = ground arith in
      (p.out, p.same, rw (shuffled, p.runs, p.kept_rows, last_batch-all_chunks))
