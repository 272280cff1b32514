-- ===== src/ShufflingBuffer/Instances.antt =====
-- Both buffers meet the interface: `NoopShufflingBuffer` keeps the order of the rows, and
-- `RandomShufflingBuffer` keeps the rows up to their order.
use mathlib.Core.List.{Perm}
use mathlib.Core.List.Perm
use petastorm.Prelude.{
  ℕ, ◌+◌, ◌-◌, ◌≤◌, ◌<◌, ◌≡◌, refl, ap, ◌∙◌, Bool, true, false, Option, some, List, [], ◌∷◌, ◌++◌,
  length, ok, Result, arith, ◌>>=◌,
}
use petastorm.ShufflingBuffer.Source.{Randint}
use petastorm.ShufflingBuffer.Interface.{ShufflingBufferBase, IsBuffer}
use petastorm.ShufflingBuffer.Noop
use petastorm.ShufflingBuffer.Noop.{NoopShufflingBuffer}
use petastorm.ShufflingBuffer.Random
use petastorm.ShufflingBuffer.Random.{RandomShufflingBuffer}
use petastorm.ShufflingBuffer.Random.Contents.{Holds, finish-Holds, add_many-Holds, retrieve-Holds}
use petastorm.ShufflingBuffer.Random.Errors.{can_retrieve-pos}

module _ {A : Type 0} where
  unfoldable pub noop_retrieve :
      Randint → NoopShufflingBuffer A → Result (Option A × NoopShufflingBuffer A)
  unfolding Noop.retrieve
  noop_retrieve rng b = do (x, b') ← Noop.retrieve b; ok (some x, b')

  abbrev pub noop_buffer : ShufflingBufferBase A
  noop_buffer = record {
    Buffer = NoopShufflingBuffer A;
    add_many = λ b new. ok (Noop.add_many b new);
    retrieve = noop_retrieve;
    can_retrieve = Noop.can_retrieve;
    finish = Noop.finish;
    size = Noop.size;
  }

  abbrev pub random_buffer : ShufflingBufferBase A
  random_buffer = record {
    Buffer = RandomShufflingBuffer A;
    add_many = Random.add_many;
    retrieve = Random.retrieve;
    can_retrieve = Random.can_retrieve;
    finish = Random.finish;
    size = λ b. b.size;
  }

  pub noop_retrieves :
      (rng : Randint) (b : NoopShufflingBuffer A) (xs : List A)
      → b.store ≡ xs
      → Noop.can_retrieve b ≡ true
      → (x : A) × (b' : NoopShufflingBuffer A) × (ys : List A) × (noop_retrieve rng b
          ≡ ok (some x, b'))
        × (b'.store ≡ ys)
        × Unit {0}
        × (x ∷ ys ≡ xs)
        × (length xs ≡ length ys + 1)
  unfolding Noop.can_retrieve noop_retrieve
  noop_retrieves rng b [] e h = absurd (ground arith)
  noop_retrieves rng b (x ∷ xs) e h =
      (x, record { store = xs }, xs, rw e, refl, tt, refl, omega arith)

  pub noop_drains :
      (b : NoopShufflingBuffer A) (xs : List A)
      → b.store ≡ xs
      → Noop.can_retrieve b ≡ false
      → xs ≡ []
  unfolding Noop.can_retrieve
  noop_drains b [] e h = refl
  noop_drains b (x ∷ xs) e h = absurd (ground arith)

  unfoldable pub noop-IsBuffer : (limit : ℕ) → IsBuffer noop_buffer limit
  unfolding Noop.size Noop.add_many Noop.finish
  noop-IsBuffer limit = record {
    Same = ◌≡◌;
    Same-refl = λ xs. refl;
    Same-trans = λ xs ys zs p q. p ∙ q;
    Same-append_right = λ xs ys zs p. ap (λ us. us ++ zs) p;
    Same-cons = λ x xs ys p. ap (◌∷◌ x) p;
    Holds = λ b xs. b.store ≡ xs;
    Phase = λ done b. Unit {0};
    sized = λ b xs h. ap length h;
    adds =
        λ b xs new h _ _ _. (record { store = b.store ++ new }, refl, ap (λ us. us ++ new) h, tt);
    retrieves = λ done rng b xs h _ may. noop_retrieves rng b xs h may;
    finishes = λ b xs h _. (h, tt);
    drains = λ b xs h _ may_not. noop_drains b xs h may_not;
  }

  -- The parameters with which the data loader makes the buffer.
  pub record IsSetUp (limit : ℕ) (done : Bool) (b : RandomShufflingBuffer A) : Type 0 where
    pub phase : b.done_adding ≡ done
    pub minimum : 0 < b.min_after_dequeue
    pub below : b.min_after_dequeue < b.shuffling_queue_capacity
    pub slack : limit ≤ b.extra_capacity + 1

  IsSetUp-same :
      {limit : ℕ} {done : Bool} (b b' : RandomShufflingBuffer A)
      → (b'.done_adding ≡ b.done_adding)
        × (b'.min_after_dequeue ≡ b.min_after_dequeue)
        × (b'.shuffling_queue_capacity ≡ b.shuffling_queue_capacity)
        × (b'.extra_capacity ≡ b.extra_capacity)
      → IsSetUp limit done b
      → IsSetUp limit done b'
  IsSetUp-same b b' e s = record {
    phase = e.0 ∙ s.phase;
    minimum = omega (arith, e.1, s.minimum);
    below = omega (arith, e.1, e.2, s.below);
    slack = omega (arith, e.3, s.slack);
  }

  add_many-same :
      (b b' : RandomShufflingBuffer A) (new : List A)
      → Random.add_many b new ≡ ok b'
      → (b'.done_adding ≡ b.done_adding)
        × (b'.min_after_dequeue ≡ b.min_after_dequeue)
        × (b'.shuffling_queue_capacity ≡ b.shuffling_queue_capacity)
        × (b'.extra_capacity ≡ b.extra_capacity)
  unfolding Random.add_many
  add_many-same b b' new e = ground arith

  retrieve-same :
      (rng : Randint) (b b' : RandomShufflingBuffer A) (x : Option A)
      → Random.retrieve rng b ≡ ok (x, b')
      → (b'.done_adding ≡ b.done_adding)
        × (b'.min_after_dequeue ≡ b.min_after_dequeue)
        × (b'.shuffling_queue_capacity ≡ b.shuffling_queue_capacity)
        × (b'.extra_capacity ≡ b.extra_capacity)
  unfolding Random.retrieve
  retrieve-same rng b b' x e = ground arith

  retrieve-size :
      (rng : Randint) (b b' : RandomShufflingBuffer A) (x : Option A)
      → Random.retrieve rng b ≡ ok (x, b')
      → b'.size ≡ b.size - 1
  unfolding Random.retrieve
  retrieve-size rng b b' x e = ground arith

  may_add :
      {limit : ℕ} (b : RandomShufflingBuffer A)
      → IsSetUp limit false b
      → Random.can_retrieve b ≡ false
      → (Random.can_add b ≡ true) × (b.size < b.min_after_dequeue)
  unfolding Random.can_retrieve Random.can_add
  may_add b s h = (ground (arith, s.phase, s.below), ground arith)

  pub random_adds :
      {limit : ℕ} (b : RandomShufflingBuffer A) (xs new : List A)
      → Holds b xs
      → IsSetUp limit false b
      → Random.can_retrieve b ≡ false
      → length new ≤ limit
      → (b' : RandomShufflingBuffer A) × (Random.add_many b new ≡ ok b')
        × Holds b' (xs ++ new)
        × IsSetUp limit false b'
  random_adds b xs new h s may_not fits =
      let (may, few) = may_add b s may_not in
      let (b', added, h') = add_many-Holds new h may (omega (arith, h.counted, s.below, s.slack)) in
      (b', added, h', IsSetUp-same b b' (add_many-same b b' new added) s)

  pub random_retrieves :
      {limit : ℕ} (done : Bool) (rng : Randint) (b : RandomShufflingBuffer A) (xs : List A)
      → Holds b xs
      → IsSetUp limit done b
      → Random.can_retrieve b ≡ true
      → (x : A) × (b' : RandomShufflingBuffer A) × (ys : List A) × (Random.retrieve rng b
          ≡ ok (some x, b'))
        × Holds b' ys
        × IsSetUp limit done b'
        × Perm (x ∷ ys) xs
        × (length xs ≡ length ys + 1)
  random_retrieves done rng b xs h s may =
      let (x, b', ys, got, h', same) =
        retrieve-Holds rng h may (can_retrieve-pos b s.minimum may) in
      (
        x,
        b',
        ys,
        got,
        h',
        IsSetUp-same b b' (retrieve-same rng b b' (some x) got) s,
        same,
        omega (
          arith,
          h.counted,
          h'.counted,
          retrieve-size rng b b' (some x) got,
          can_retrieve-pos b s.minimum may,
        ),
      )

  pub random_drains :
      {limit : ℕ} (b : RandomShufflingBuffer A) (xs : List A)
      → Holds b xs
      → IsSetUp limit true b
      → Random.can_retrieve b ≡ false
      → xs ≡ []
  unfolding Random.can_retrieve
  random_drains b [] h s may_not = refl
  random_drains b (x ∷ xs) h s may_not = absurd (ground (arith, h.counted, s.phase))

  unfoldable pub random-IsBuffer : (limit : ℕ) → IsBuffer random_buffer limit
  unfolding Random.finish
  random-IsBuffer limit = record {
    Same = Perm;
    Same-refl = Perm.refl;
    Same-trans = λ xs ys zs p q. Perm.trans p q;
    Same-append_right = λ xs ys zs p. Perm.append_right zs p;
    Same-cons = λ x xs ys p. Perm.cons x p;
    Holds = Holds;
    Phase = IsSetUp limit;
    sized = λ b xs h. h.counted;
    adds = random_adds;
    retrieves = random_retrieves;
    finishes = λ b xs h s. (
      finish-Holds h,
      record { phase = refl; minimum = s.minimum; below = s.below; slack = s.slack },
    );
    drains = random_drains;
  }
