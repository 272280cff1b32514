-- ===== src/Ventilator.antt =====
-- petastorm/workers_pool/ventilator.py: `ConcurrentVentilator`. The ventilation thread runs beside
-- the consumer: a step of the thread is either the top of the loop of `_ventilate` (the two tests)
-- or the rest of its body, and the consumer's calls come in between. `ventilated` is the list of the
-- calls of `ventilate_fn`.
pub mod Steps
pub mod Invariant
mod Emit
pub mod Order
pub mod Progress
mod Examples
use petastorm.Prelude.{
  ℕ, ◌+◌, ◌-◌, Bool, true, false, ◌&&◌, ◌||◌, not, Option, none, some, List, [], ◌∷◌, ◌++◌, length,
  leb, ltb, ◌==◌, if◌then◌else◌, Result, ok, raise, raise_if, value_error, not_implemented_error,
  ◌>>=◌, ◌>>◌,
}
use petastorm.Indexing.{get_item}

-- Where the ventilation thread stands: not started, at the tests of its loop, in the body of the
-- loop, or returned.
pub data Thread : Type 0 where
  unstarted checking emitting returned : Thread

pub record ConcurrentVentilator {ℓ} (A : Type ℓ) : Type ℓ where
  pub items_to_ventilate : List A
  pub iterations : Option ℕ
  pub iterations_remaining : Option ℕ
  pub randomize_item_order : Bool
  pub random_seed : Option ℕ
  pub max_ventilation_queue_size : ℕ
  pub current_item_to_ventilate : ℕ
  pub ventilated_items_count : ℕ
  pub processed_items_count : ℕ
  pub stop_requested : Bool
  pub thread : Thread
  pub ventilated : List A

-- `numpy.random`'s `permutation`: of the ventilator's own generator, and of the global one.
pub record Shuffle {ℓ} (A : Type ℓ) : Type ℓ where
  pub rng : List A → List A
  pub np_random : List A → List A

is_zero? : Option ℕ → Bool
is_zero? none = false
is_zero? (some n) = n == 0

-- `max_ventilation_queue_size or len(items_to_ventilate)`: 0 counts as missing
or_length : Option ℕ → ℕ → ℕ
or_length none n = n
or_length (some m) n = if m == 0 then n else m

is_empty : {A : Type 0} → List A → Bool
is_empty [] = true
is_empty (x ∷ xs) = false

-- `if self._iterations_remaining is not None: self._iterations_remaining -= 1`
pub one_less : Option ℕ → Option ℕ
one_less none = none
one_less (some n) = some (n - 1)

module _ {A : Type 0} where
  -- That `items_to_ventilate` is a list of dicts is its type here.
  unfoldable pub init :
      List A → Option ℕ → Bool → Option ℕ → Option ℕ → Result (ConcurrentVentilator A)
  unfolding is_zero? or_length
  init items iterations randomize seed max_size = do
    raise_if (is_zero? iterations) value_error
    ok (record {
      items_to_ventilate = items;
      iterations = iterations;
      iterations_remaining = iterations;
      randomize_item_order = randomize;
      random_seed = seed;
      max_ventilation_queue_size = or_length max_size (length items);
      current_item_to_ventilate = 0;
      ventilated_items_count = 0;
      processed_items_count = 0;
      stop_requested = false;
      thread = Thread.unstarted;
      ventilated = [];
    })

  unfoldable pub processed_item : ConcurrentVentilator A → ConcurrentVentilator A
  processed_item v = record v { processed_items_count = v.processed_items_count + 1 }

  unfoldable pub completed : ConcurrentVentilator A → Bool
  unfolding is_zero? is_empty
  completed v = v.stop_requested || is_zero? v.iterations_remaining || is_empty v.items_to_ventilate

  unfoldable pub stop : ConcurrentVentilator A → ConcurrentVentilator A
  stop v = record v { stop_requested = true }

  -- The head of `_ventilate`: the new order of the items, if they are to be shuffled.
  unfoldable pub shuffle_items : Shuffle A → ConcurrentVentilator A → List A
  unfolding is_zero?
  shuffle_items s v = elim v.random_seed [
    | none ↦ s.np_random v.items_to_ventilate
    | some seed ↦ if seed == 0 then s.np_random v.items_to_ventilate else s.rng v.items_to_ventilate
  ]

  -- `start`, and the thread up to its loop.
  unfoldable pub start : Shuffle A → ConcurrentVentilator A → ConcurrentVentilator A
  unfolding shuffle_items
  start s v = record v {
    items_to_ventilate = if v.randomize_item_order then shuffle_items s v else v.items_to_ventilate;
    thread = Thread.checking;
  }

  unfoldable pub reset : Shuffle A → ConcurrentVentilator A → Result (ConcurrentVentilator A)
  unfolding completed start
  reset s v = do
    raise_if (not (completed v)) not_implemented_error
    ok (start s (record v { iterations_remaining = v.iterations }))

  -- The top of the loop: stop, wait for room in the queue, or go on to the body.
  unfoldable pub check : ConcurrentVentilator A → ConcurrentVentilator A
  check v =
      if completed v
      then record v { thread = Thread.returned }
      else if leb (v.processed_items_count + v.max_ventilation_queue_size) v.ventilated_items_count
      then v
      else record v { thread = Thread.emitting }

  -- The end of the body: the next item, or the first one and one iteration less.
  wrap : ConcurrentVentilator A → ConcurrentVentilator A
  unfolding one_less
  wrap v =
      if leb (length v.items_to_ventilate) v.current_item_to_ventilate
      then record v {
        current_item_to_ventilate = 0;
        iterations_remaining = one_less v.iterations_remaining;
      }
      else v

  -- The body of the loop.
  unfoldable pub emit : ConcurrentVentilator A → Result (ConcurrentVentilator A)
  unfolding wrap
  emit v = do
    item ← get_item v.items_to_ventilate v.current_item_to_ventilate
    ok (
        wrap (record v {
          ventilated = v.ventilated ++ item ∷ [];
          current_item_to_ventilate = v.current_item_to_ventilate + 1;
          ventilated_items_count = v.ventilated_items_count + 1;
          thread = Thread.checking;
        }))
