-- ===== src/BatchedBuffer/Random.antt =====
-- `BatchedRandomShufflingBuffer`: preallocated tensors, of which the rows that `random_indices` still
-- has from `next_sample_head` on, or without it the first `size` rows, are in the buffer. `blank` is
-- what the memory of `torch.empty` holds.
pub mod Capacity
pub mod Contents
pub mod Adding
use petastorm.Prelude.{
  ℕ, zero, suc, ◌+◌, ◌-◌, ◌*◌, min, Bool, true, false, not, ◌&&◌, ◌||◌, Option, none, some, List,
  [], ◌∷◌, ◌++◌, map, length, take, drop, replicate, leb, ltb, if◌then◌else◌, Result, ok, raise,
  raise_if, runtime_error, type_error, diverged, ◌>>=◌, ◌>>◌,
}
use petastorm.Indexing.{get_item}
use petastorm.Tensors.{slice, gather, assign, each, each_item}
use petastorm.Tensors.Randperm.{Randperm}
use petastorm.BatchedBuffer.Columns.{first_length}

pub record BatchedRandomShufflingBuffer (A : Type 0) : Type 0 where
  pub batch_size : ℕ
  pub extra_capacity : ℕ
  pub items : Option (List (List A))
  pub shuffling_queue_capacity : ℕ
  pub min_after_dequeue : ℕ
  pub size : ℕ
  pub done_adding : Bool
  pub random_indices : Option (List ℕ)
  pub next_sample_head : ℕ

-- The loop that doubles the capacity, on fuel.
unfoldable pub grow : ℕ → ℕ → ℕ → Result ℕ
grow zero capacity expected_size = raise diverged
grow (suc fuel) capacity expected_size =
    let more = grow fuel (capacity * 2) expected_size in
    if ltb capacity expected_size then more else ok capacity

module _ {A : Type 0} where
  unfoldable pub init : ℕ → ℕ → ℕ → ℕ → BatchedRandomShufflingBuffer A
  init shuffling_buffer_capacity min_after_retrieve extra_capacity batch_size = record {
    batch_size = batch_size;
    extra_capacity = extra_capacity;
    items = none;
    shuffling_queue_capacity = shuffling_buffer_capacity;
    min_after_dequeue = min_after_retrieve;
    size = 0;
    done_adding = false;
    random_indices = none;
    next_sample_head = 0;
  }

  unfoldable pub can_add : BatchedRandomShufflingBuffer A → Bool
  can_add b = ltb b.size b.shuffling_queue_capacity && not b.done_adding

  unfoldable pub can_retrieve : BatchedRandomShufflingBuffer A → Bool
  can_retrieve b =
      leb (b.min_after_dequeue + b.batch_size - 1) b.size || (b.done_adding && ltb 0 b.size)

  unfoldable pub finish : BatchedRandomShufflingBuffer A → BatchedRandomShufflingBuffer A
  finish b = record b { done_adding = true }

  -- The tensors, made on the first call.
  unfoldable pub allocated : A → ℕ → Option (List (List A)) → List (List A) → List (List A)
  allocated blank capacity none items = map (λ v. replicate capacity blank) items
  allocated blank capacity (some tensors) items = tensors

  -- The rows that are left, moved to the front; indexing by a missing permutation is a TypeError.
  unfoldable pub compress : ℕ → ℕ → Option (List ℕ) → List (List A) → Result (List (List A))
  compress zero size indices tensors = ok tensors
  compress (suc head) size none tensors = raise type_error
  compress (suc head) size (some indices) tensors =
      each (λ t. do left ← gather t (drop (suc head) indices); assign 0 size t left) tensors

  -- The tensors with at least the capacity.
  unfoldable pub resize : A → ℕ → ℕ → List (List A) → Result (List (List A))
  resize blank capacity size tensors = do
    first ← get_item tensors 0
    if ltb (length first) capacity
        then each (λ t. assign 0 size (replicate capacity blank) (take size t)) tensors
        else ok tensors

  unfoldable pub add_many :
      A → BatchedRandomShufflingBuffer A → List (List A) → Result (BatchedRandomShufflingBuffer A)
  unfolding can_add
  add_many blank b items = do
    raise_if b.done_adding runtime_error
    raise_if (not (can_add b)) runtime_error
    new ← first_length items
    let expected_size = b.size + new
    raise_if (ltb (b.shuffling_queue_capacity + b.extra_capacity) expected_size) runtime_error
    new_capacity ← grow (suc expected_size) b.shuffling_queue_capacity expected_size
    let tensors = allocated blank new_capacity b.items items
    compressed ← compress b.next_sample_head b.size b.random_indices tensors
    resized ← resize blank new_capacity b.size compressed
    filled ← each_item (assign b.size expected_size) resized items
    ok (record b {
      items = some filled;
      size = expected_size;
      random_indices = none;
      next_sample_head = 0;
    })

  -- The permutation, drawn when there is none.
  unfoldable pub permutation : Randperm → BatchedRandomShufflingBuffer A → ℕ × List ℕ
  permutation rng b = elim b.random_indices [
    | none ↦ (0, rng.randperm b.size)
    | some indices ↦ (b.next_sample_head, indices)
  ]

  unfoldable pub tensors_of : BatchedRandomShufflingBuffer A → Result (List (List A))
  tensors_of b = elim b.items [ none ↦ raise type_error | some tensors ↦ ok tensors ]

  unfoldable pub retrieve :
      Randperm
      → BatchedRandomShufflingBuffer A
      → Result (List (List A) × BatchedRandomShufflingBuffer A)
  unfolding can_retrieve permutation tensors_of
  retrieve rng b = do
    raise_if (not b.done_adding && not (can_retrieve b)) runtime_error
    let batch_size = min b.batch_size b.size
    tensors ← tensors_of b
    let (head, indices) = permutation rng b
    sample ← each (λ v. gather v (slice head (head + batch_size) indices)) tensors
    ok (
      sample,
      record b {
        random_indices = some indices;
        next_sample_head = head + batch_size;
        size = b.size - batch_size;
      },
    )
