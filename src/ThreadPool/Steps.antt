-- ===== src/ThreadPool/Steps.antt =====
-- The ventilation thread, the worker threads and the consumer as a step relation: any of them may go
-- next. The iterations of `get_results` are cut where another thread may come between.
use petastorm.Prelude.{ℕ, ◌<◌, ◌≡◌, Bool, true, false, List, [], ◌∷◌, ◌++◌, length}
use petastorm.ThreadPool.{
  ThreadPool, Worker, Message, Outcome, Phase, messages, after_put, update, is_failure, ventilate,
  stop, consume, all_workers_done,
}

module _ {I R : Type 0} (process : I → Outcome R) where
  pub data Step (s : ThreadPool I R) : ThreadPool I R → Type 0 where
    ventilates :
        (x : I) (rest : List I)
        → s.ventilator ≡ x ∷ rest
        → Step s (ventilate (record s { ventilator = rest }) x)
    -- `stop` may have come after the test of the event and before the item was taken, so that the item is
    -- taken whether the event is set or not.
    starts_item :
        (w : ℕ) (x : I) (xs : List I)
        → w < s.workers_count
        → s.workers w ≡ Worker.idle
        → s.ventilator_queues w ≡ x ∷ xs
        → Step s (record s {
          ventilator_queues = update s.ventilator_queues w xs;
          workers = update s.workers w (Worker.busy (messages (process x)));
        })
    puts :
        (w : ℕ) (m : Message R) (ms : List (Message R))
        → w < s.workers_count
        → s.workers w ≡ Worker.busy (m ∷ ms)
        → length (s.results_queues w) < s.results_queue_size
        → Step s (record s {
          results_queues = update s.results_queues w (s.results_queues w ++ m ∷ []);
          workers = update s.workers w (after_put m ms);
        })
    -- `WorkerTerminationRequested`, after the queue was full; an exception waits for ever
    gives_up :
        (w : ℕ) (m : Message R) (ms : List (Message R))
        → w < s.workers_count
        → s.stop_event ≡ true
        → s.workers w ≡ Worker.busy (m ∷ ms)
        → is_failure m ≡ false
        → Step s (record s { workers = update s.workers w (Worker.terminated (m ∷ ms)) })
    exits :
        (w : ℕ)
        → w < s.workers_count
        → s.stop_event ≡ true
        → s.workers w ≡ Worker.idle
        → Step s (record s { workers = update s.workers w (Worker.terminated []) })
    consumes : Step s (consume s)
    stops : Step s (stop s)

  -- The states that a run reaches whose steps all have the property `P`.
  pub data Reach (P : (t u : ThreadPool I R) → Step t u → Type 0) (s : ThreadPool I R)
      : ThreadPool I R → Type 0 where
    here : Reach P s s
    next : {t u : ThreadPool I R} → Reach P s t → (step : Step t u) → P t u step → Reach P s u

  abbrev pub Always : (s t : ThreadPool I R) → Step s t → Type 0
  Always s t step = Unit {0}

  unfoldable pub by_consumer : {s t : ThreadPool I R} → Step s t → Bool
  by_consumer consumes = true
  by_consumer _ = false

  -- Where the consumer is about to leave a worker that is done, not all workers are done, unless
  -- ventilation is complete.
  abbrev pub IsAhead : (s t : ThreadPool I R) → Step s t → Type 0
  IsAhead s t step =
      by_consumer step ≡ true
      → s.phase ≡ Phase.choosing
      → all_workers_done s ≡ true
      → s.ventilator ≡ []
