-- ===== src/ThreadPool.antt =====
-- petastorm/workers_pool/thread_pool.py: `ThreadPool` and its `WorkerThread`. Queues and counts of the
-- workers are functions of the worker's id, which is below `workers_count`. What a worker makes of an
-- item is a parameter, and so is the order in which the ventilator hands the items out.
pub mod Steps
pub mod Left
pub mod Frames
pub mod Contents
pub mod Consumer
pub mod Track
pub mod Order
pub mod Robin
pub mod RoundRobin
pub mod Determinism
pub mod Sequence
mod Examples
use petastorm.Prelude.{
  ℕ, zero, suc, ◌+◌, ◌/◌, ◌%◌, Bool, true, false, not, ◌&&◌, Option, none, some, List, [], ◌∷◌,
  ◌++◌, map, ltb, ◌==◌, if◌then◌else◌, Result, ok, raise, runtime_error, Error,
}

-- What a worker puts into its results queue.
pub data Message (R : Type 0) : Type 0 where
  result : R → Message R
  item_processed : Message R
  failure : Error → Message R

unfoldable pub is_failure : {R : Type 0} → Message R → Bool
is_failure (failure e) = true
is_failure _ = false

-- What `process` publishes for an item, and the exception that it ends with, if any.
pub record Outcome (R : Type 0) : Type 0 where
  pub results : List R
  pub error : Option Error

-- The last message of an item.
unfoldable pub last_message : {R : Type 0} → Option Error → Message R
last_message none = item_processed
last_message (some e) = failure e

-- The messages of an item, as `WorkerThread.run` puts them.
unfoldable pub messages : {R : Type 0} → Outcome R → List (Message R)
messages o = map result o.results ++ last_message o.error ∷ []

-- A worker waits for an item, has messages to put, or has left its loop with messages unsent.
pub data Worker (R : Type 0) : Type 0 where
  idle : Worker R
  busy terminated : List (Message R) → Worker R

-- The worker after a message: an exception ends its loop.
unfoldable pub after_put : {R : Type 0} → Message R → List (Message R) → Worker R
after_put (failure e) ms = terminated ms
after_put _ [] = idle
after_put _ (m ∷ ms) = busy (m ∷ ms)

-- Where the consumer is in `get_results`: before `all_workers_done`, before `completed`, before the
-- test of the current worker, before the queue, or out of the loop with an exception.
pub data Phase : Type 0 where
  looking done_seen choosing getting empty_result : Phase
  failed : Error → Phase

-- `ventilator` are the items that are still to be handed out, and `delivered` are the results that
-- `get_results` returned, with their workers.
pub record ThreadPool (I R : Type 0) : Type 0 where
  pub workers_count : ℕ
  pub results_queue_size : ℕ
  pub stop_event : Bool
  pub ventilated_items : ℕ
  pub ventilated_items_by_worker : ℕ → ℕ
  pub ventilated_items_processed_by_worker : ℕ → ℕ
  pub ventilator_queues : ℕ → List I
  pub results_queues : ℕ → List (Message R)
  pub get_results_worker_id : ℕ
  pub workers : ℕ → Worker R
  pub ventilator : List I
  pub phase : Phase
  pub delivered : List (ℕ × R)

abbrev pub update : {X : Type 0} → (ℕ → X) → ℕ → X → ℕ → X
update f w x j = if j == w then x else f j

max_queue : ℕ → ℕ → ℕ
max_queue size count = if ltb (size / count) 5 then 5 else size / count

is_empty : {X : Type 0} → List X → Bool
is_empty [] = true
is_empty (x ∷ xs) = false

module _ {I R : Type 0} where
  -- `__init__` and `start`, which raises when the pool was stopped before.
  unfoldable pub init : ℕ → ℕ → List I → ThreadPool I R
  unfolding max_queue
  init workers_count results_queue_size items = record {
    workers_count = workers_count;
    results_queue_size = max_queue results_queue_size workers_count;
    stop_event = false;
    ventilated_items = 0;
    ventilated_items_by_worker = λ w. 0;
    ventilated_items_processed_by_worker = λ w. 0;
    ventilator_queues = λ w. [];
    results_queues = λ w. [];
    get_results_worker_id = 0;
    workers = λ w. idle;
    ventilator = items;
    phase = looking;
    delivered = [];
  }

  unfoldable pub ventilate : ThreadPool I R → I → ThreadPool I R
  ventilate s item =
      let current_worker_id = s.ventilated_items % s.workers_count in
      record s {
        ventilated_items = s.ventilated_items + 1;
        ventilated_items_by_worker =
            update s.ventilated_items_by_worker current_worker_id
              (s.ventilated_items_by_worker current_worker_id + 1);
        ventilator_queues =
            update s.ventilator_queues current_worker_id
              (s.ventilator_queues current_worker_id ++ item ∷ []);
      }

  unfoldable pub current_worker_done : ThreadPool I R → ℕ → Bool
  unfolding is_empty
  current_worker_done s w =
      (s.ventilated_items_processed_by_worker w == s.ventilated_items_by_worker w)
      && is_empty (s.results_queues w)

  unfoldable pub workers_done : ℕ → ThreadPool I R → Bool
  workers_done zero s = true
  workers_done (suc w) s = let rest = workers_done w s in rest && current_worker_done s w

  unfoldable pub all_workers_done : ThreadPool I R → Bool
  all_workers_done s = workers_done s.workers_count s

  unfoldable pub stop : ThreadPool I R → ThreadPool I R
  stop s = record s { ventilator = []; stop_event = true }

  unfoldable pub next_worker : ThreadPool I R → ThreadPool I R
  next_worker s = record s {
    get_results_worker_id = (s.get_results_worker_id + 1) % s.workers_count;
    phase = looking;
  }

  -- The message that the consumer took from the current worker's queue.
  unfoldable pub take_message : ThreadPool I R → Message R → ThreadPool I R
  unfolding next_worker stop
  take_message s (result r) = record s {
    delivered = s.delivered ++ (s.get_results_worker_id, r) ∷ [];
    phase = looking;
  }
  take_message s item_processed =
      let w = s.get_results_worker_id in
      next_worker (record s {
        ventilated_items_processed_by_worker =
            update s.ventilated_items_processed_by_worker w
              (s.ventilated_items_processed_by_worker w + 1);
      })
  take_message s (failure e) = record (stop s) { phase = failed e }

  -- `get` from the queue of the current worker; on a timeout the loop starts again.
  unfoldable pub take : ThreadPool I R → List (Message R) → ThreadPool I R
  take s [] = record s { phase = looking }
  take s (m ∷ ms) =
      take_message
        (record s { results_queues = update s.results_queues s.get_results_worker_id ms }) m

  -- One step of `get_results`, and of the next call after a result was returned or an exception
  -- raised.
  unfoldable pub consume_at : Phase → ThreadPool I R → ThreadPool I R
  unfolding is_empty
  consume_at looking s = record s { phase = if all_workers_done s then done_seen else choosing }
  consume_at done_seen s = record s {
    phase = if is_empty s.ventilator then empty_result else choosing;
  }
  consume_at choosing s =
      if current_worker_done s s.get_results_worker_id
      then next_worker s
      else record s { phase = getting }
  consume_at getting s = take s (s.results_queues s.get_results_worker_id)
  consume_at empty_result s = record s { phase = looking }
  consume_at (failed e) s = record s { phase = looking }

  unfoldable pub consume : ThreadPool I R → ThreadPool I R
  consume s = consume_at s.phase s
