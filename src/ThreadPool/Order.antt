-- ===== src/ThreadPool/Order.antt =====
-- Each worker's results come out in the order of the items that it was handed, in every schedule, and
-- all of them when the pool has nothing more to do.
use petastorm.Prelude.{
  ℕ, zero, suc, ◌+◌, ◌%◌, ◌<◌, ◌≡◌, refl, ap, ◌∙◌, sym, true, false, List, [], ◌∷◌, ◌++◌, map,
  append_assoc, append-nil, concat, length, ◌==◌, arith, Bool-cases, inl, inr,
}
use petastorm.ThreadPool.{
  ThreadPool, Outcome, messages, init, current_worker_done, workers_done, all_workers_done,
}
use petastorm.ThreadPool.Left.{
  assigned, results_of, results_of-append, results_of-messages, ended, nothing_left, from_worker,
  all_messages, left,
}
use petastorm.ThreadPool.Steps.{Reach, Always}
use petastorm.ThreadPool.Track.{init-IsOnTrack, Reach-IsOnTrack}

assigned-append_all :
    {I : Type 0} (n k : ℕ) (xs ys : List I) (w : ℕ)
    → assigned n k (xs ++ ys) w ≡ assigned n k xs w ++ assigned n (k + length xs) ys w
assigned-append_all n k [] ys w = let e : k + 0 ≡ k = omega arith in rw e refl
assigned-append_all n k (x ∷ xs) ys w =
    let e : k + 1 + length xs ≡ k + suc (length xs) = omega arith in
    elim (Bool-cases (k % n == w)) [
      | inl same ↦ rw (same, ← e) (ap (◌∷◌ x) (assigned-append_all n (k + 1) xs ys w))
      | inr other ↦ rw (other, ← e) (assigned-append_all n (k + 1) xs ys w)
    ]

module _ {I R : Type 0} (process : I → Outcome R) where
  -- What some items give, one after the other.
  abbrev pub results_in_order : List I → List R
  results_in_order xs = concat (map (λ x. (process x).results) xs)

  results_of-all_messages :
      (xs : List I) → results_of (all_messages process xs) ≡ results_in_order xs
  results_of-all_messages [] = refl
  results_of-all_messages (x ∷ xs) =
      rw
        (
          results_of-append (messages (process x)),
          results_of-messages (process x),
          results_of-all_messages xs,
        )
        refl

  pub results_in_order-append :
      (xs ys : List I) → results_in_order (xs ++ ys) ≡ results_in_order xs ++ results_in_order ys
  results_in_order-append [] ys = refl
  results_in_order-append (x ∷ xs) ys = rw (append_assoc, results_in_order-append xs ys) refl

  -- Whatever the threads and the consumer did, also after a worker's exception or `stop`: the results
  -- that the consumer got from a worker are the first ones, in order and each once, of those that the
  -- items give which strict round robin hands to this worker.
  pub delivered-IsPrefix :
      (n size : ℕ) (all : List I) (t : ThreadPool I R) (w : ℕ)
      → Reach process (Always process) (init n size all) t
      → (rest : List R) × (results_in_order (assigned n 0 all w)
          ≡ from_worker w t.delivered ++ rest)
  delivered-IsPrefix n size all t w run =
      let h =
        Reach-IsOnTrack process all n (Always process) (init-IsOnTrack process n size all) run in
      let more = assigned n (0 + length h.handed) (t.ventilator ++ h.dropped) w in
      let a = assigned-append_all n 0 h.handed (t.ventilator ++ h.dropped) w in
      let c = (h.workers w).contents in
      (
        results_of (left process t w) ++ results_in_order more,
        rw
            (
              ← h.items,
              a,
              results_in_order-append (assigned n 0 h.handed w),
              ← results_of-all_messages (assigned n 0 h.handed w),
              c,
              append_assoc,
            )
            refl,
      )

  pub workers_done-each :
      (n : ℕ) (t : ThreadPool I R) (w : ℕ)
      → workers_done n t ≡ true
      → w < n
      → current_worker_done t w ≡ true
  unfolding workers_done
  workers_done-each zero t w h b = absurd (omega arith)
  workers_done-each (suc n) t w h b = elim (Bool-cases (w == n)) [
    | inl e ↦ let same : w ≡ n = ground arith in rw same (ground (arith, h))
    | inr e ↦ workers_done-each n t w (ground (arith, h)) (ground arith)
  ]

  -- When every worker is done, ventilation is complete and nothing was stopped, the consumer has got
  -- every result of every worker, whatever the schedule.
  pub all_workers_done-delivered :
      (n size : ℕ) (all : List I) (t : ThreadPool I R) (w : ℕ)
      → Reach process (Always process) (init n size all) t
      → all_workers_done t ≡ true
      → t.ventilator ≡ []
      → t.stop_event ≡ false
      → w < n
      → from_worker w t.delivered ≡ results_in_order (assigned n 0 all w)
  unfolding all_workers_done current_worker_done
  all_workers_done-delivered n size all t w run is_done complete going b =
      let h =
        Reach-IsOnTrack process all n (Always process) (init-IsOnTrack process n size all) run in
      let k = h.workers w in
      let each =
        workers_done-each n t w (ap (λ (k : ℕ). workers_done k t) (sym h.workers_count) ∙ is_done)
          b in
      let counted = k.counted going in
      let e : ended (left process t w) ≡ 0 = ground (arith, each) in
      let l = nothing_left (left process t w) k.closed e in
      let i : h.handed ≡ all =
        sym (append-nil h.handed) ∙ rw (complete, h.nothing_dropped going) at h.items in
      rw (← i, ← results_of-all_messages (assigned n 0 h.handed w), k.contents, l)
        (sym (append-nil (from_worker w t.delivered)))
