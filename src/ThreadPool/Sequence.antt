-- ===== src/ThreadPool/Sequence.antt =====
-- The order of all results, where the consumer does not get ahead of the ventilator.
use native.Mathlib.Nat.{mod-lt}
use petastorm.Prelude.{
  length, ℕ, ◌+◌, ◌%◌, ◌<◌, ◌≡◌, ◌≢◌, refl, ap, ◌∙◌, sym, true, false, List, [], ◌++◌, append_assoc,
  append-nil, ◌==◌, arith,
}
use petastorm.ThreadPool.{
  ThreadPool, Outcome, init, workers_done, all_workers_done, current_worker_done,
}
use petastorm.ThreadPool.Left.{assigned, results_of, ended, ended-append, all_messages, left}
use petastorm.ThreadPool.Track.{init-IsOnTrack, Reach-IsOnTrack}
use petastorm.ThreadPool.Order.{results_in_order, results_in_order-append, workers_done-each}
use petastorm.ThreadPool.Robin.{IsRobin, caught_up, midway, values}
use petastorm.ThreadPool.Determinism.{Reach-IsRobin, unfinished-current_worker_done}
use petastorm.ThreadPool.Steps.{Reach, IsAhead}

module _ {I R : Type 0} (process : I → Outcome R) where
  IsRobin-prefix :
      (all : List I) (n : ℕ) (t : ThreadPool I R)
      → IsRobin process all n t
      → (rest : List R) × (results_in_order process all ≡ values t.delivered ++ rest)
  IsRobin-prefix all n t (caught_up handed e1 e2 e3 e4 e5) = (
    results_in_order process t.ventilator,
    rw (← e1, e3) (results_in_order-append process handed t.ventilator),
  )
  IsRobin-prefix all n t (midway past x xs c e1 e2 e3 e4 e5 e6 e7) = (
    results_of c ++ results_in_order process (xs ++ t.ventilator),
    let q = results_in_order process (xs ++ t.ventilator) in
        rw (← e1, results_in_order-append process past)
          (sym (append_assoc (results_in_order process past) (process x).results q)
            ∙ ap (λ (l : List R). l ++ q) (sym e4)
            ∙ append_assoc (values t.delivered) (results_of c) q),
  )

  -- While the pool is neither stopped nor failed, and as long as the consumer never left a worker that
  -- had nothing to do while all had nothing to do and ventilation went on: whatever the schedule of the
  -- threads and the number of workers, the results come out in the order of the ventilated items, each
  -- once and none left out.
  pub values-IsPrefix :
      (n size : ℕ) (all : List I) (t : ThreadPool I R)
      → Reach process (IsAhead process) (init n size all) t
      → t.stop_event ≡ false
      → (rest : List R) × (results_in_order process all ≡ values t.delivered ++ rest)
  values-IsPrefix n size all t run going =
      IsRobin-prefix all n t (Reach-IsRobin process all n size run going)

  IsRobin-end :
      (all : List I) (n : ℕ) (t : ThreadPool I R)
      → 0 < n
      → ((w : ℕ)
          → t.ventilated_items_by_worker w
            ≡ t.ventilated_items_processed_by_worker w + ended (left process t w))
      → ((w : ℕ) → w < n → current_worker_done t w ≡ true)
      → t.ventilator ≡ []
      → IsRobin process all n t
      → values t.delivered ≡ results_in_order process all
  IsRobin-end all n t b counted each complete (caught_up handed e1 e2 e3 e4 e5) =
      rw (e3, ← e1, complete, append-nil) refl
  IsRobin-end all n t b counted each complete (midway past x xs c e1 e2 e3 e4 e5 e6 e7) =
      let v = t.get_results_worker_id in
      let self : (length past % n == v) ≡ true = rw (← e3) (ground arith) in
      let rest = all_messages process (assigned n (length past + 1) xs v) in
      let l : left process t v ≡ c ++ rest = e7 v ∙ rw self refl in
      let some_left : ended (left process t v) ≢ 0 =
        rw (l, ended-append c rest, e6) (λ h. omega (arith, h)) in
      let not_done = unfinished-current_worker_done process t v (counted v) some_left in
      let is_done = each v (rw e3 (mod-lt (length past) b)) in absurd (cc)

  -- When every worker is done and ventilation is complete, the results are those of all items in the
  -- order of ventilation, under the same conditions: a run's outcome depends neither on the schedule
  -- nor on the number of workers.
  pub all_workers_done-values :
      (n size : ℕ) (all : List I) (t : ThreadPool I R)
      → 0 < n
      → Reach process (IsAhead process) (init n size all) t
      → t.stop_event ≡ false
      → all_workers_done t ≡ true
      → t.ventilator ≡ []
      → values t.delivered ≡ results_in_order process all
  unfolding all_workers_done
  all_workers_done-values n size all t b run going is_done complete =
      let h =
        Reach-IsOnTrack process all n (IsAhead process) (init-IsOnTrack process n size all) run in
      let every = ap (λ (k : ℕ). workers_done k t) (sym h.workers_count) ∙ is_done in
      IsRobin-end all n t b (λ w. (h.workers w).counted going)
        (λ w. workers_done-each process n t w every) complete
        (Reach-IsRobin process all n size run going)
