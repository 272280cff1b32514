-- ===== src/ThreadPool/Examples.antt =====
-- Runs of a pool in which a worker gives one result for an item.
use petastorm.Prelude.{
  if◌then◌else◌, ◌==◌, suc, zero, ℕ, ◌+◌, ◌<◌, ◌≡◌, refl, true, false, none, List, [], ◌∷◌, ◌++◌,
  arith,
}
use petastorm.ThreadPool.{
  ThreadPool, result, item_processed, Outcome, Worker, messages, last_message, after_put, update,
  is_empty, max_queue, init, ventilate, current_worker_done, workers_done, all_workers_done, stop,
  next_worker, take_message, take, consume_at, consume, Phase,
}
use petastorm.ThreadPool.Left.{assigned, from_worker}
use petastorm.ThreadPool.Steps.{
  Step, Reach, Always, IsAhead, by_consumer, ventilates, starts_item, puts, consumes, here, next,
}
use petastorm.ThreadPool.Order.{results_in_order, delivered-IsPrefix, all_workers_done-delivered}
use petastorm.ThreadPool.Robin.{values}
use petastorm.ThreadPool.Determinism.{forget}
use petastorm.ThreadPool.Sequence.{values-IsPrefix, all_workers_done-values}

abbrev double : ℕ → Outcome ℕ
double x = record { results = (x + x) ∷ []; error = none }

abbrev State : Type 0
State = ThreadPool ℕ ℕ

abbrev handed_out : ℕ → List ℕ → State → State
handed_out x rest s = ventilate (record s { ventilator = rest }) x

-- Worker `w` takes an item and sends its two messages.
abbrev worked : ℕ → ℕ → State → State
worked w x s = record s {
  ventilator_queues = update s.ventilator_queues w [];
  workers =
      update
        (update (update s.workers w (Worker.busy (result (x + x) ∷ item_processed ∷ []))) w
          (Worker.busy (item_processed ∷ [])))
        w Worker.idle;
  results_queues =
      let one = update s.results_queues w (s.results_queues w ++ result (x + x) ∷ []) in
      update one w (one w ++ item_processed ∷ []);
}

works :
    (P : (u v : State) → Step double u v → Type 0) (w x : ℕ) {s : State} (t : State)
    → ((u v : State) (step : Step double u v) → by_consumer double step ≡ false → P u v step)
    → w < t.workers_count
    → t.workers w ≡ Worker.idle
    → t.ventilator_queues w ≡ x ∷ []
    → t.results_queues w ≡ []
    → 1 < t.results_queue_size
    → Reach double P s t
    → Reach double P s (worked w x t)
unfolding messages last_message after_put by_consumer
works P w x t p b free waits empty room run =
    let self : (w == w) ≡ true = ground arith in
    let a = next run (starts_item w x [] b free waits) (p _ _ _ refl) in
    let l : (if w == w then Worker.busy (messages (double x)) else t.workers w)
        ≡ Worker.busy (result (x + x) ∷ item_processed ∷ []) =
      rw self refl in
    let c =
      next a (puts w (result (x + x)) (item_processed ∷ []) b l (rw empty (omega (arith, room))))
        (p _ _ _ refl) in
    let m : update (update t.workers w (Worker.busy (messages (double x)))) w
          (Worker.busy (item_processed ∷ [])) w
        ≡ Worker.busy (item_processed ∷ []) =
      rw self refl in
    next c (puts w item_processed [] b m (rw (self, empty) (omega (arith, room)))) (p _ _ _ refl)

abbrev consume_times : ℕ → State → State
consume_times zero s = s
consume_times (suc k) s = consume (consume_times k s)

consume-ventilator : (s : State) → s.ventilator ≡ [] → (consume s).ventilator ≡ []
unfolding consume consume_at take take_message next_worker stop
consume-ventilator s e = ground (arith, e)

consume_times-ventilator :
    (k : ℕ) (s : State) → s.ventilator ≡ [] → (consume_times k s).ventilator ≡ []
consume_times-ventilator zero s e = e
consume_times-ventilator (suc k) s e =
    consume-ventilator (consume_times k s) (consume_times-ventilator k s e)

consume_times-IsAhead :
    (k : ℕ) {s : State} (t : State)
    → t.ventilator ≡ []
    → Reach double (IsAhead double) s t
    → Reach double (IsAhead double) s (consume_times k t)
consume_times-IsAhead zero t e run = run
consume_times-IsAhead (suc k) t e run =
    next (consume_times-IsAhead k t e run) consumes (λ c a b. consume_times-ventilator k t e)

-- Two workers and two items; the second worker is the first to be ready.
abbrev start : State
start = init 2 50 (3 ∷ 4 ∷ [])

abbrev all_sent : State
all_sent = worked 0 3 (worked 1 4 (handed_out 4 [] (handed_out 3 (4 ∷ []) start)))

sends_all : Reach double (IsAhead double) start all_sent
unfolding init max_queue ventilate by_consumer
sends_all =
    let a = next here (ventilates 3 (4 ∷ []) refl) (λ c h d. cc) in
    let b = next a (ventilates 4 [] refl) (λ c h d. cc) in
    let t = handed_out 4 [] (handed_out 3 (4 ∷ []) start) in
    let ahead : (u v : State) (step : Step double u v)
        → by_consumer double step ≡ false
        → IsAhead double u v step =
      λ u v step e c h d. cc in
    let c = works (IsAhead double) 1 4 t ahead (omega arith) refl refl refl (omega arith) b in
    works (IsAhead double) 0 3 (worked 1 4 t) ahead (omega arith) refl refl refl (omega arith) c

abbrev finish : State
finish = consume_times 12 all_sent

runs : Reach double (IsAhead double) start finish
unfolding ventilate
runs = consume_times-IsAhead 12 all_sent refl sends_all

delivered-IsPrefix_example :
    (rest : List ℕ) × (results_in_order double (assigned 2 0 (3 ∷ 4 ∷ []) 1)
      ≡ from_worker 1 finish.delivered ++ rest)
delivered-IsPrefix_example =
    delivered-IsPrefix double 2 50 (3 ∷ 4 ∷ []) finish 1 (forget double (IsAhead double) runs)

all_workers_done-delivered_example :
    from_worker 1 finish.delivered ≡ results_in_order double (assigned 2 0 (3 ∷ 4 ∷ []) 1)
unfolding init max_queue ventilate consume consume_at take take_message next_worker all_workers_done
    workers_done current_worker_done is_empty
all_workers_done-delivered_example =
    all_workers_done-delivered double 2 50 (3 ∷ 4 ∷ []) finish 1
      (forget double (IsAhead double) runs) refl refl refl (omega arith)

values-IsPrefix_example :
    (rest : List ℕ) × (results_in_order double (3 ∷ 4 ∷ []) ≡ values finish.delivered ++ rest)
unfolding init max_queue ventilate consume consume_at take take_message next_worker all_workers_done
    workers_done current_worker_done is_empty
values-IsPrefix_example = values-IsPrefix double 2 50 (3 ∷ 4 ∷ []) finish runs refl

all_workers_done-values_example : values finish.delivered ≡ results_in_order double (3 ∷ 4 ∷ [])
unfolding init max_queue ventilate consume consume_at take take_message next_worker all_workers_done
    workers_done current_worker_done is_empty
all_workers_done-values_example =
    all_workers_done-values double 2 50 (3 ∷ 4 ∷ []) finish (omega arith) runs refl refl refl

-- Where the consumer gets ahead, it moves past a worker that is done, and two items that are handed out
-- afterwards come out in the other order.
abbrev begin : State
begin = init 2 50 (3 ∷ 4 ∷ 5 ∷ [])

abbrev ahead : State
ahead = consume_times 9 (worked 0 3 (handed_out 3 (4 ∷ 5 ∷ []) begin))

abbrev swapped : State
swapped = consume_times 12 (worked 0 5 (worked 1 4 (handed_out 5 [] (handed_out 4 (5 ∷ []) ahead))))

consume_times-Always :
    (k : ℕ) {s : State} (t : State)
    → Reach double (Always double) s t
    → Reach double (Always double) s (consume_times k t)
consume_times-Always zero t run = run
consume_times-Always (suc k) t run = next (consume_times-Always k t run) consumes tt

swapped_run : Reach double (Always double) begin swapped
unfolding init max_queue ventilate consume consume_at take take_message next_worker all_workers_done
    workers_done current_worker_done is_empty
swapped_run =
    let a = next here (ventilates 3 (4 ∷ 5 ∷ []) refl) tt in
    let t = handed_out 3 (4 ∷ 5 ∷ []) begin in
    let b =
      works (Always double) 0 3 t (λ u v step e. tt) (omega arith) refl refl refl (omega arith) a in
    let c = consume_times-Always 9 (worked 0 3 t) b in
    let d = next c (ventilates 4 (5 ∷ []) refl) tt in
    let e = next d (ventilates 5 [] refl) tt in
    let v = handed_out 5 [] (handed_out 4 (5 ∷ []) ahead) in
    let f =
      works (Always double) 1 4 v (λ u v step e. tt) (omega arith) refl refl refl (omega arith) e in
    let g =
      works (Always double) 0 5 (worked 1 4 v) (λ u v step e. tt) (omega arith) refl refl refl
        (omega arith) f in
    consume_times-Always 12 (worked 0 5 (worked 1 4 v)) g

swapped_values : ◌≡◌ {A = List ℕ} (values swapped.delivered) (6 ∷ 10 ∷ 8 ∷ [])
unfolding init max_queue ventilate consume consume_at take take_message next_worker all_workers_done
    workers_done current_worker_done is_empty
swapped_values = refl

-- The last item is handed out between the consumer's test of the workers and that of the ventilator:
-- `get_results` raises `EmptyResultError`, and its results stay behind.
abbrev too_early : State
too_early = consume (handed_out 3 [] (consume (init 1 50 (3 ∷ []))))

too_early_run : Reach double (Always double) (init 1 50 (3 ∷ [])) too_early
unfolding init max_queue ventilate consume consume_at all_workers_done workers_done
    current_worker_done is_empty
too_early_run = next (next (next here consumes tt) (ventilates 3 [] refl) tt) consumes tt

too_early_phase :
    (too_early.phase ≡ Phase.empty_result)
    × (too_early.delivered ≡ [])
    × (too_early.ventilator_queues 0 ≡ 3 ∷ [])
unfolding init max_queue ventilate consume consume_at all_workers_done workers_done
    current_worker_done is_empty
too_early_phase = (refl, refl, refl)
