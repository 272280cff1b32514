-- ===== src/ShufflingBuffer/Random.antt =====
-- `RandomShufflingBuffer`: an array of slots of which the first `size` are in use. A method that
-- may raise returns a `Result`; the sizes are natural numbers.
pub mod Contents
pub mod Errors
pub mod Runs
use petastorm.Prelude.{
  ℕ, ◌+◌, ◌-◌, ◌<◌, Bool, true, false, ◌&&◌, ◌||◌, not, Option, none, List, [], ◌∷◌, map, some,
  length, replicate, ltb, leb, Result, ok, raise_if, runtime_error, ◌>>=◌, ◌>>◌,
}
use petastorm.ShufflingBuffer.Source.{Randint}
use petastorm.Indexing.{get_item, set_item, set_slice}

pub record RandomShufflingBuffer {ℓ} (A : Type ℓ) : Type ℓ where
  pub extra_capacity : ℕ
  pub items : List (Option A)
  pub shuffling_queue_capacity : ℕ
  pub min_after_dequeue : ℕ
  pub size : ℕ
  pub done_adding : Bool

module _ {ℓ} {A : Type ℓ} where
  unfoldable pub init : ℕ → ℕ → ℕ → RandomShufflingBuffer A
  init shuffling_buffer_capacity min_after_retrieve extra_capacity = record {
    extra_capacity = extra_capacity;
    items = replicate (shuffling_buffer_capacity + extra_capacity) none;
    shuffling_queue_capacity = shuffling_buffer_capacity;
    min_after_dequeue = min_after_retrieve;
    size = 0;
    done_adding = false;
  }

  unfoldable pub can_add : RandomShufflingBuffer A → Bool
  can_add b = ltb b.size b.shuffling_queue_capacity && not b.done_adding

  unfoldable pub can_retrieve : RandomShufflingBuffer A → Bool
  can_retrieve b = leb b.min_after_dequeue b.size || (b.done_adding && ltb 0 b.size)

  unfoldable pub finish : RandomShufflingBuffer A → RandomShufflingBuffer A
  finish b = record b { done_adding = true }

  unfoldable pub add_many : RandomShufflingBuffer A → List A → Result (RandomShufflingBuffer A)
  unfolding can_add
  add_many b items = do
    raise_if b.done_adding runtime_error
    raise_if (not (can_add b)) runtime_error
    let expected_size = b.size + length items
    let maximal_capacity = b.shuffling_queue_capacity + b.extra_capacity
    raise_if (ltb maximal_capacity expected_size) runtime_error
    ok (record b {
      items = set_slice b.items b.size (b.size + length items) (map some items);
      size = expected_size;
    })

  -- The value that is returned may be `None`, as the slots may.
  unfoldable pub retrieve :
      Randint → RandomShufflingBuffer A → Result (Option A × RandomShufflingBuffer A)
  unfolding can_retrieve
  retrieve rng b = do
    raise_if (not b.done_adding && not (can_retrieve b)) runtime_error
    random_index ← rng.draw 0 b.size
    return_value ← get_item b.items random_index
    last ← get_item b.items (b.size - 1)
    moved ← set_item b.items random_index last
    cleared ← set_item moved (b.size - 1) none
    ok (return_value, record b { items = cleared; size = b.size - 1 })
