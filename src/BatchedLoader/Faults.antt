-- ===== src/BatchedLoader/Faults.antt =====
-- A shuffling queue of one row with batches of one row: the minimum that `can_retrieve` asks for is 0.
use Prim.Native.String.{String}
use petastorm.Prelude.{
  ltb, ℕ, zero, suc, ◌+◌, ◌-◌, ◌<◌, ◌≡◌, refl, min, true, some, List, [], ◌∷◌, map, length, ok,
  raise, diverged, arith, Bool-cases, inl, inr,
}
use petastorm.Tensors.{slice, gather, each}
use petastorm.Tensors.Randperm.{Randperm}
use petastorm.BatchedBuffer.Random.{
  BatchedRandomShufflingBuffer, can_retrieve, retrieve, permutation,
}
use petastorm.BatchedBuffer.Random.Contents.{Holds, stored_pos, retrieve_run, array, retrieve-Holds}
use petastorm.BatchedBuffer.Interface.{BatchedShufflingBufferBase}
use petastorm.BatchedBuffer.Instances.{random_buffer}
use petastorm.BatchedLoader.{State, yield_batches}

module _ {A : Type 0} (I : BatchedShufflingBufferBase A) (rng : ℕ → Randperm)
    (ks : List String) where
  goes_on :
      (fuel : ℕ) (s : State I rng) (batch : List (List A)) (b : I.Buffer)
      → I.can_retrieve s.buffer ≡ true
      → I.retrieve (rng s.draws) s.buffer ≡ ok (batch, b)
      → yield_batches I rng fuel ks (record { buffer = b; draws = s.draws + 1 }) ≡ raise diverged
      → yield_batches I rng (suc fuel) ks s ≡ raise diverged
  unfolding yield_batches
  goes_on fuel s batch b may got rest = ground (arith, may, got, rest)

module _ {A : Type 0} (blank : A) (rng : ℕ → Randperm) (ks : List String) where
  no_indices : (head : ℕ) (indices : List ℕ) → slice head (head + 0) indices ≡ []
  unfolding slice
  no_indices head indices = let width : head + 0 - head ≡ 0 = omega arith in rw width

  each_nothing :
      (tensors : List (List A)) → each (λ v. gather v []) tensors ≡ ok (map (λ v. []) tensors)
  unfolding each gather
  each_nothing [] = refl
  each_nothing (t ∷ ts) = rw (each_nothing ts)

  open_buffer :
      (b : BatchedRandomShufflingBuffer A)
      → b.min_after_dequeue ≡ 0
      → b.batch_size ≡ 1
      → can_retrieve b ≡ true
  unfolding can_retrieve
  open_buffer b e f = ground (arith, e, f)

  -- A retrieval from an empty buffer gives a batch without rows.
  retrieve_nothing :
      (rnd : Randperm) (b : BatchedRandomShufflingBuffer A) (tensors : List (List A))
      → can_retrieve b ≡ true
      → b.items ≡ some tensors
      → b.size ≡ 0
      → (indices : List ℕ) × (head : ℕ) × (retrieve rnd b
          ≡ ok (
            map (λ v. []) tensors,
            record b { random_indices = some indices; next_sample_head = head; size = 0 },
          ))
  retrieve_nothing rnd b tensors may stored none_left =
      let head = (permutation rnd b).0 in
      let indices = (permutation rnd b).1 in
      let width : min b.batch_size b.size ≡ 0 = omega (arith, none_left) in
      let left : b.size - min b.batch_size b.size ≡ 0 = omega (arith, none_left) in
      let got =
        retrieve_run rnd b tensors (map (λ v. []) tensors) head indices may stored refl
          (rw (width, no_indices head indices) (each_nothing tensors)) in
      (indices, head + min b.batch_size b.size, rw left at got)

  endless_nothing :
      (fuel draws : ℕ) (b : BatchedRandomShufflingBuffer A) (tensors : List (List A))
      → b.min_after_dequeue ≡ 0
      → b.batch_size ≡ 1
      → b.items ≡ some tensors
      → b.size ≡ 0
      → yield_batches (random_buffer blank) rng fuel ks (record { buffer = b; draws = draws })
        ≡ raise diverged
  unfolding yield_batches
  endless_nothing zero draws b tensors e f stored none_left = refl
  endless_nothing (suc fuel) draws b tensors e f stored none_left =
      let may = open_buffer b e f in
      let (indices, head, got) = retrieve_nothing (rng draws) b tensors may stored none_left in
      let b' = record b { random_indices = some indices; next_sample_head = head; size = 0 } in
      goes_on (random_buffer blank) rng ks fuel _ _ b' may got
        (endless_nothing fuel (draws + 1) b' tensors e f stored refl)

module _ {R A : Type 0} (blank : A) (p : R → A) (projs : List (R → A)) (rng : ℕ → Randperm)
    (ks : List String) where
  -- With a minimum of 0 and batches of one row, and at least one row in the buffer: the loop of
  -- `_yield_batches` does not end, however much fuel it is given.
  pub endless_batches :
      (fuel draws : ℕ) (b : BatchedRandomShufflingBuffer A) (rows : List R)
      → Holds blank p projs b rows
      → 0 < length rows
      → b.min_after_dequeue ≡ 0
      → b.batch_size ≡ 1
      → yield_batches (random_buffer blank) rng fuel ks (record { buffer = b; draws = draws })
        ≡ raise diverged
  unfolding yield_batches
  endless_batches zero draws b rows h pos e f = refl
  endless_batches (suc fuel) draws b rows h pos e f =
      let may = open_buffer blank rng ks b e f in
      let (out, ys, indices, head, (got, h', same, size, total)) =
        retrieve-Holds blank p projs (rng draws) h may (omega (arith, f)) pos in
      let b' = record b {
        random_indices = some indices;
        next_sample_head = head;
        size = length ys;
      } in
      elim (Bool-cases (ltb 0 (length ys))) [
        | inl more ↦
            goes_on (random_buffer blank) rng ks fuel _ _ b' may got
              (endless_batches fuel (draws + 1) b' ys h' (ground (arith, more)) e f)
        | inr last ↦ goes_on (random_buffer blank) rng ks fuel _ _ b' may got (
            endless_nothing blank rng ks fuel (draws + 1) b' (array blank p projs h.all h.junk) e f
              (stored_pos blank p projs h pos) (ground (arith, last)))
      ]
