-- ===== src/BatchedLoader/Loaders.antt =====
-- A pass of each kind of batched loader.
use Prim.Native.String.{String}
use mathlib.Core.List.{Perm}
use petastorm.Prelude.{
  ℕ, ◌+◌, ◌-◌, ◌≤◌, ◌<◌, ◌≡◌, refl, true, false, List, [], ◌∷◌, map, concat, Result, ok, arith, ltb,
}
use petastorm.Tensors.Randperm.{Randperm}
use petastorm.BatchedBuffer.Columns.{columns}
use petastorm.BatchedBuffer.Noop
use petastorm.BatchedBuffer.Noop.{init-Holds}
use petastorm.BatchedBuffer.Random
use petastorm.BatchedBuffer.Random.Contents
use petastorm.BatchedBuffer.Instances.{
  noop_buffer, random_buffer, noop-IsBuffer, random-IsBuffer, IsPlain, IsSetUp,
}
use petastorm.DataLoader.{Row, Sample, zip_keys}
use petastorm.DataLoader.Chunks.{all_chunks}
use petastorm.BatchedLoader.{BatchedDataLoader, pass}
use petastorm.BatchedLoader.Passes.{Tabular, iter_impl-Passed}

-- The batches of `n` rows into which rows fall, and a last smaller one, as dictionaries of columns.
abbrev pub all_dicts :
    {R A : Type 0} → List (R → A) → List String → ℕ → List R → List (Row (List A))
all_dicts projs ks n rows = map (λ batch. zip_keys ks (columns projs batch)) (all_chunks n [] rows)

module _ {V R A : Type 0} (rng : ℕ → Randperm) (sanitize : Sample V → Result (Sample V))
    (transform_fn : List V → Result (List A)) (blank : A) (extra_capacity : ℕ) (p : R → A)
    (projs : List (R → A)) (ks : List String) where
  noop_set_up :
      (n : ℕ)
      → 0 < n
      → IsPlain n false (Noop.init {A = A} n) × (Noop.can_retrieve (Noop.init {A = A} n) ≡ false)
  unfolding Noop.init Noop.can_retrieve
  noop_set_up n pos = (record { phase = refl; batch = refl }, ground arith)

  -- Without a shuffling queue, for a batch size that is not 0 and at least one sample, all of them
  -- sanitized without an error, with the same keys and with the columns of rows as their tensors: a
  -- pass yields the rows of the reader in the reader's order, in batches of `batch_size` and a last
  -- smaller one, each batch as the columns of its rows.
  pub pass_batched_in_order :
      (d : BatchedDataLoader) (r : Sample V) (rest : List (Sample V)) (groups : List (List R))
      (limit : ℕ)
      → d.shuffling_queue_capacity ≡ 0
      → 0 < d.batch_size
      → Tabular sanitize transform_fn (p ∷ projs) ks limit (r ∷ rest) groups
      → pass rng sanitize transform_fn blank extra_capacity d (r ∷ rest)
        ≡ ok (all_dicts (p ∷ projs) ks d.batch_size (concat groups))
  unfolding pass noop-IsBuffer
  pass_batched_in_order d r rest groups limit none_shuffled pos ready =
      let (up, shut) = noop_set_up d.batch_size pos in
      let q =
        iter_impl-Passed noop_buffer (p ∷ projs) d.batch_size limit pos
          (noop-IsBuffer p projs d.batch_size pos limit) rng sanitize transform_fn ks r rest groups
          (record { buffer = Noop.init d.batch_size; draws = 0 }) ready
          (init-Holds p projs d.batch_size) up shut in
      rw (none_shuffled, q.runs, q.same) refl

  set_up :
      (cap n limit : ℕ)
      → 1 < cap
      → 0 < n
      → limit ≤ extra_capacity + 1
      → (let b = Random.init {A = A} (cap - 1 + n) (cap - 1) extra_capacity n in
          IsSetUp n limit false b × (Random.can_retrieve b ≡ false))
  unfolding Random.init Random.can_retrieve
  set_up cap n limit more pos fits = (
    record { phase = refl; batch = refl; minimum = omega arith; capacity = refl; slack = fits },
    ground (arith, more, pos),
  )

  -- With a shuffling queue of two rows or more, for a batch size that is not 0 and at least one
  -- sample, all of them sanitized without an error, with the same keys, with the columns of rows as
  -- their tensors, and with no more rows than the extra capacity and one: whatever the permutations
  -- drawn are, a pass yields the rows of the reader in some order, each as often as the reader gives
  -- it, in batches of `batch_size` and a last smaller one, each batch as the columns of its rows.
  pub pass_batched_shuffled :
      (d : BatchedDataLoader) (r : Sample V) (rest : List (Sample V)) (groups : List (List R))
      (limit : ℕ)
      → 1 < d.shuffling_queue_capacity
      → 0 < d.batch_size
      → limit ≤ extra_capacity + 1
      → Tabular sanitize transform_fn (p ∷ projs) ks limit (r ∷ rest) groups
      → (out : List R) × Perm out (concat groups)
        × (pass rng sanitize transform_fn blank extra_capacity d (r ∷ rest)
            ≡ ok (all_dicts (p ∷ projs) ks d.batch_size out))
  unfolding pass random-IsBuffer
  pass_batched_shuffled d r rest groups limit more pos fits ready =
      let cap = d.shuffling_queue_capacity in
      let n = d.batch_size in
      let (up, shut) = set_up cap n limit more pos fits in
      let q =
        iter_impl-Passed (random_buffer blank) (p ∷ projs) n limit pos
          (random-IsBuffer p projs n pos blank limit) rng sanitize transform_fn ks r rest groups
          (record { buffer = Random.init (cap - 1 + n) (cap - 1) extra_capacity n; draws = 0 })
          ready (Contents.init-Holds blank p projs (cap - 1 + n) (cap - 1) extra_capacity n) up
          shut in
      let shuffled : ltb 0 cap ≡ true = ground arith in (q.out, q.same, rw (shuffled, q.runs) refl)
