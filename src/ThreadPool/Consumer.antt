-- ===== src/ThreadPool/Consumer.antt =====
-- The invariant of one worker where the consumer takes a message.
use petastorm.Prelude.{
  ℕ, ◌+◌, ◌≡◌, refl, true, false, List, [], ◌∷◌, ◌++◌, append_assoc, append-nil, ◌==◌,
  if◌then◌else◌, arith, Bool-cases, inl, inr,
}
use petastorm.ThreadPool.{
  ThreadPool, Message, result, item_processed, failure, Outcome, update, stop, next_worker,
  take_message, Phase,
}
use petastorm.ThreadPool.Left.{is_open_weaken, from_worker-append, left}
use petastorm.ThreadPool.Contents.{IsInOrder}

module _ {I R : Type 0} (process : I → Outcome R) where
  pub left-taken :
      (s : ThreadPool I R) (m : Message R) (ms : List (Message R))
      → s.results_queues s.get_results_worker_id ≡ m ∷ ms
      → (j : ℕ)
      → let t = record s { results_queues = update s.results_queues s.get_results_worker_id ms } in
        left process s j
        ≡ (if j == s.get_results_worker_id then m ∷ left process t j else left process t j)
  unfolding left
  left-taken s m ms e j = elim (Bool-cases (j == s.get_results_worker_id)) [
    | inl same_worker ↦
        let same : j ≡ s.get_results_worker_id = ground arith in rw (same_worker, same, e) refl
    | inr other_worker ↦ rw other_worker refl
  ]

  -- Other fields than the three that hold messages do not matter.
  pub left-fields :
      (s t : ThreadPool I R)
      → t.results_queues ≡ s.results_queues
      → t.workers ≡ s.workers
      → t.ventilator_queues ≡ s.ventilator_queues
      → (j : ℕ) → left process t j ≡ left process s j
  unfolding left
  left-fields s t a b c j = rw (a, b, c) refl

  pub take_message-IsInOrder :
      (m : Message R) (ms : List (Message R)) (s : ThreadPool I R) (items : List I) (w : ℕ)
      → s.results_queues s.get_results_worker_id ≡ m ∷ ms
      → IsInOrder process s items w
      → IsInOrder process
          (take_message
            (record s { results_queues = update s.results_queues s.get_results_worker_id ms })
            m)
          items
          w
  unfolding take_message next_worker stop
  take_message-IsInOrder (result r) ms s items w e h =
      let t = record s { results_queues = update s.results_queues s.get_results_worker_id ms } in
      let u = record t {
        delivered = s.delivered ++ (s.get_results_worker_id, r) ∷ [];
        phase = Phase.looking;
      } in
      let l = left-taken s (result r) ms e w in
      let f = left-fields t u refl refl refl w in
      let d = from_worker-append w s.delivered ((s.get_results_worker_id, r) ∷ []) in
      let c = h.closed in
      let o = h.contents in
      elim (Bool-cases (w == s.get_results_worker_id)) [
        | inl same_worker ↦
            let there : (s.get_results_worker_id == w) ≡ true = ground arith in
            let l' : left process s w ≡ result r ∷ left process t w = rw l (rw same_worker refl) in
            record {
              contents = rw (f, o, l', d, there, append_assoc) refl;
              closed = rw f (is_open_weaken (left process t w) (rw l' at c));
              counted = λ going. rw f (rw l' at (h.counted going));
            }
        | inr other_worker ↦
            let there : (s.get_results_worker_id == w) ≡ false = ground arith in
            let l' : left process s w ≡ left process t w = rw l (rw other_worker refl) in
            record {
              contents = rw (f, o, l', d, there, append-nil) refl;
              closed = rw f (rw l' at c);
              counted = λ going. rw f (rw l' at (h.counted going));
            }
      ]
  take_message-IsInOrder item_processed ms s items w e h =
      let t = record s { results_queues = update s.results_queues s.get_results_worker_id ms } in
      let u = take_message t item_processed in
      let l = left-taken s item_processed ms e w in
      let f = left-fields t u refl refl refl w in
      let c = h.closed in
      let o = h.contents in
      elim (Bool-cases (w == s.get_results_worker_id)) [
        | inl same_worker ↦
            let same : w ≡ s.get_results_worker_id = ground arith in
            let l' : left process s w ≡ item_processed ∷ left process t w =
              rw l (rw same_worker refl) in
            record {
              contents = rw (f, o, l') refl;
              closed = rw f (rw l' at c);
              counted = λ going.
                  let k = rw l' at (h.counted going) in
                  let old = s.ventilated_items_processed_by_worker in
                  let p : update old s.get_results_worker_id (old s.get_results_worker_id + 1) w
                      ≡ old w + 1 =
                    rw (same_worker, same) refl in
                  rw (f, p) (omega (arith, k));
            }
        | inr other_worker ↦
            let l' : left process s w ≡ left process t w = rw l (rw other_worker refl) in
            record {
              contents = rw (f, o, l') refl;
              closed = rw f (rw l' at c);
              counted = λ going. rw (f, other_worker) (rw l' at (h.counted going));
            }
      ]
  take_message-IsInOrder (failure x) ms s items w e h =
      let t = record s { results_queues = update s.results_queues s.get_results_worker_id ms } in
      let u = take_message t (failure x) in
      let l = left-taken s (failure x) ms e w in
      let f = left-fields t u refl refl refl w in
      let c = h.closed in
      let o = h.contents in
      elim (Bool-cases (w == s.get_results_worker_id)) [
        | inl same_worker ↦
            let l' : left process s w ≡ failure x ∷ left process t w = rw l (rw same_worker refl) in
            record {
              contents = rw (f, o, l') refl;
              closed = rw f (rw l' at c);
              counted = λ going. cc;
            }
        | inr other_worker ↦
            let l' : left process s w ≡ left process t w = rw l (rw other_worker refl) in
            record {
              contents = rw (f, o, l') refl;
              closed = rw f (rw l' at c);
              counted = λ going. cc;
            }
      ]

  pub stop-IsInOrder :
      (s : ThreadPool I R) (items : List I) (w : ℕ)
      → IsInOrder process s items w
      → IsInOrder process (stop s) items w
  unfolding stop
  stop-IsInOrder s items w h =
      let f = left-fields s (stop s) refl refl refl w in
      record { contents = rw f h.contents; closed = rw f h.closed; counted = λ going. cc }
