-- ===== src/BatchedBuffer/Instances.antt =====
-- Both batched buffers meet the interface: `BatchedNoopShufflingBuffer` keeps the order of the rows,
-- and `BatchedRandomShufflingBuffer` keeps the rows up to their order.
use mathlib.Core.List.{Perm}
use mathlib.Core.List.Perm
use petastorm.Prelude.{
  ℕ, ◌+◌, ◌≤◌, ◌<◌, ◌≡◌, refl, ap, ◌∙◌, min, Bool, true, false, List, [], ◌∷◌, ◌++◌, take, drop,
  length, length-take, length-drop, take-append-drop, ok, Result, arith,
}
use petastorm.Tensors.Randperm.{Randperm}
use petastorm.BatchedBuffer.Columns.{columns}
use petastorm.BatchedBuffer.Interface.{BatchedShufflingBufferBase, IsBuffer}
use petastorm.BatchedBuffer.Noop
use petastorm.BatchedBuffer.Noop.{BatchedNoopShufflingBuffer}
use petastorm.BatchedBuffer.Random
use petastorm.BatchedBuffer.Random.{BatchedRandomShufflingBuffer}
use petastorm.BatchedBuffer.Random.Contents
use petastorm.BatchedBuffer.Random.Adding

module _ {A : Type 0} where
  abbrev pub noop_buffer : BatchedShufflingBufferBase A
  noop_buffer = record {
    Buffer = BatchedNoopShufflingBuffer A;
    add_many = Noop.add_many;
    retrieve = λ rng b. ok (Noop.retrieve b);
    can_retrieve = Noop.can_retrieve;
    finish = Noop.finish;
    size = λ b. b.size;
  }

  abbrev pub random_buffer : A → BatchedShufflingBufferBase A
  random_buffer blank = record {
    Buffer = BatchedRandomShufflingBuffer A;
    add_many = Random.add_many blank;
    retrieve = Random.retrieve;
    can_retrieve = Random.can_retrieve;
    finish = Random.finish;
    size = λ b. b.size;
  }

-- A noop buffer of batches of `n` rows.
pub record IsPlain {A : Type 0} (n : ℕ) (done : Bool) (b : BatchedNoopShufflingBuffer A)
    : Type 0 where
  pub phase : b.done_adding ≡ done
  pub batch : b.batch_size ≡ n

-- A random buffer with the parameters that the loader gives it.
pub record IsSetUp {A : Type 0} (n limit : ℕ) (done : Bool) (b : BatchedRandomShufflingBuffer A)
    : Type 0 where
  pub phase : b.done_adding ≡ done
  pub batch : b.batch_size ≡ n
  pub minimum : 0 < b.min_after_dequeue
  pub capacity : b.shuffling_queue_capacity ≡ b.min_after_dequeue + n
  pub slack : limit ≤ b.extra_capacity + 1

module _ {R A : Type 0} (p : R → A) (projs : List (R → A)) (n : ℕ) (full : 0 < n) where
  noop_enough :
      (done : Bool) (b : BatchedNoopShufflingBuffer A) (xs : List R)
      → Noop.Holds p projs b xs
      → IsPlain n done b
      → Noop.can_retrieve b ≡ true
      → (0 < length xs) × (done ≡ false → n ≤ length xs)
  unfolding Noop.can_retrieve
  noop_enough true b xs h s may =
      (ground (arith, may, s.phase, h.counted), λ e. absurd (ground arith))
  noop_enough false b xs h s may =
      let enough : n ≤ length xs = ground (arith, may, s.phase, s.batch, h.counted) in
      (omega (arith, full, enough), λ e. enough)

  noop_same :
      (done : Bool) (b : BatchedNoopShufflingBuffer A)
      → IsPlain n done b
      → IsPlain n done (Noop.retrieve b).1
  unfolding Noop.retrieve
  noop_same done b s = record { phase = s.phase; batch = s.batch }

  pub noop_retrieves :
      (done : Bool) (rng : Randperm) (b : BatchedNoopShufflingBuffer A) (xs : List R)
      → Noop.Holds p projs b xs
      → IsPlain n done b
      → Noop.can_retrieve b ≡ true
      → (out ys : List R) × (b' : BatchedNoopShufflingBuffer A) × (◌≡◌
          {A = Result (List (List A) × BatchedNoopShufflingBuffer A)}
          (ok (Noop.retrieve b))
          (ok (columns (p ∷ projs) out, b')))
        × Noop.Holds p projs b' ys
        × IsPlain n done b'
        × (out ++ ys ≡ xs)
        × (length out ≡ min n (length xs))
        × (length out + length ys ≡ length xs)
        × (0 < length xs)
        × (done ≡ false → n ≤ length xs)
  noop_retrieves done rng b xs h s may =
      let k = min (length xs) b.batch_size in
      let (pos, enough) = noop_enough done b xs h s may in
      let (got, h') = Noop.retrieve-Holds p projs h pos in
      (
        take k xs,
        drop k xs,
        (Noop.retrieve b).1,
        ap (λ out. ok (out, (Noop.retrieve b).1)) got,
        h',
        noop_same done b s,
        take-append-drop k xs,
        omega (arith, length-take k xs, s.batch),
        omega (arith, length-take k xs, length-drop k xs),
        pos,
        enough,
      )

  pub noop_drains :
      (b : BatchedNoopShufflingBuffer A) (xs : List R)
      → Noop.Holds p projs b xs
      → IsPlain n true b
      → Noop.can_retrieve b ≡ false
      → xs ≡ []
  unfolding Noop.can_retrieve
  noop_drains b [] h s may_not = refl
  noop_drains b (x ∷ xs) h s may_not = absurd (ground (arith, h.counted, s.phase))

  unfoldable pub noop-IsBuffer : (limit : ℕ) → IsBuffer noop_buffer (p ∷ projs) n limit
  unfolding Noop.finish
  noop-IsBuffer limit = record {
    Same = ◌≡◌;
    Same-refl = λ xs. refl;
    Same-trans = λ xs ys zs q r. q ∙ r;
    Same-append_right = λ xs ys zs q. ap (λ us. us ++ zs) q;
    Same-append_left = λ zs xs ys q. ap (λ us. zs ++ us) q;
    Holds = Noop.Holds p projs;
    Phase = IsPlain n;
    sized = λ b xs h. h.counted;
    adds = λ b xs new h s may_not fits.
        let (added, h') = Noop.add_many-Holds p projs new h in
        (_, added, h', record { phase = s.phase; batch = s.batch });
    retrieves = noop_retrieves;
    finishes = λ b xs h s. (Noop.finish-Holds p projs h, record { phase = refl; batch = s.batch });
    drains = noop_drains;
  }

  pub random_may_add :
      {limit : ℕ} (b : BatchedRandomShufflingBuffer A)
      → IsSetUp n limit false b
      → Random.can_retrieve b ≡ false
      → (Random.can_add b ≡ true) × (b.size < b.shuffling_queue_capacity)
  unfolding Random.can_retrieve Random.can_add
  random_may_add b s may_not =
      let few : b.size < b.min_after_dequeue + n =
        ground (arith, may_not, s.phase, s.batch, s.minimum) in
      (ground (arith, few, s.phase, s.capacity), omega (arith, few, s.capacity))

  random_enough :
      {limit : ℕ} (done : Bool) (b : BatchedRandomShufflingBuffer A)
      → IsSetUp n limit done b
      → Random.can_retrieve b ≡ true
      → (0 < b.size) × (done ≡ false → n ≤ b.size)
  unfolding Random.can_retrieve
  random_enough true b s may =
      (ground (arith, may, s.phase, s.minimum, s.batch, full), λ e. absurd (ground arith))
  random_enough false b s may =
      let enough : n ≤ b.size = ground (arith, may, s.phase, s.minimum, s.batch, full) in
      (omega (arith, full, enough), λ e. enough)

  pub random_retrieves :
      (blank : A) {limit : ℕ} (done : Bool) (rng : Randperm) (b : BatchedRandomShufflingBuffer A)
      (xs : List R)
      → Contents.Holds blank p projs b xs
      → IsSetUp n limit done b
      → Random.can_retrieve b ≡ true
      → (out ys : List R) × (b' : BatchedRandomShufflingBuffer A) × (Random.retrieve rng b
          ≡ ok (columns (p ∷ projs) out, b'))
        × Contents.Holds blank p projs b' ys
        × IsSetUp n limit done b'
        × Perm (out ++ ys) xs
        × (length out ≡ min n (length xs))
        × (length out + length ys ≡ length xs)
        × (0 < length xs)
        × (done ≡ false → n ≤ length xs)
  random_retrieves blank done rng b xs h s may =
      let (pos, enough) = random_enough done b s may in
      let some_rows : 0 < length xs = omega (arith, pos, h.counted) in
      let (out, ys, indices, head, (got, h', same, size, total)) =
        Contents.retrieve-Holds blank p projs rng h may (omega (arith, s.batch, full)) some_rows in
      (
        out,
        ys,
        _,
        got,
        h',
        record {
          phase = s.phase;
          batch = s.batch;
          minimum = s.minimum;
          capacity = s.capacity;
          slack = s.slack;
        },
        same,
        omega (arith, size, s.batch),
        total,
        some_rows,
        λ e. omega (arith, enough e, h.counted),
      )

  pub random_drains :
      (blank : A) {limit : ℕ} (b : BatchedRandomShufflingBuffer A) (xs : List R)
      → Contents.Holds blank p projs b xs
      → IsSetUp n limit true b
      → Random.can_retrieve b ≡ false
      → xs ≡ []
  unfolding Random.can_retrieve
  random_drains blank b [] h s may_not = refl
  random_drains blank b (x ∷ xs) h s may_not = absurd (ground (arith, h.counted, s.phase))

  unfoldable pub random-IsBuffer :
      (blank : A) (limit : ℕ) → IsBuffer (random_buffer blank) (p ∷ projs) n limit
  unfolding Random.finish
  random-IsBuffer blank limit = record {
    Same = Perm;
    Same-refl = Perm.refl;
    Same-trans = λ xs ys zs q r. Perm.trans q r;
    Same-append_right = λ xs ys zs q. Perm.append_right zs q;
    Same-append_left = λ zs xs ys q. Perm.append_left zs q;
    Holds = Contents.Holds blank p projs;
    Phase = IsSetUp n limit;
    sized = λ b xs h. h.counted;
    adds = λ b xs new h s may_not fits.
        let (may, below) = random_may_add b s may_not in
        let (tensors, (added, h')) =
          Adding.add_many-Holds blank p projs new h may
            (omega (arith, h.counted, below, s.slack, fits)) in
        (
          _,
          added,
          h',
          record {
            phase = s.phase;
            batch = s.batch;
            minimum = s.minimum;
            capacity = s.capacity;
            slack = s.slack;
          },
        );
    retrieves = random_retrieves blank;
    finishes = λ b xs h s. (
      Contents.finish-Holds blank p projs h,
      record {
        phase = refl;
        batch = s.batch;
        minimum = s.minimum;
        capacity = s.capacity;
        slack = s.slack;
      },
    );
    drains = random_drains blank;
  }
