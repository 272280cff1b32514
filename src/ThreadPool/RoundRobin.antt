-- ===== src/ThreadPool/RoundRobin.antt =====
-- Strict round robin: the consumer's steps keep its invariant, and what the invariant gives in the end.
use native.Mathlib.Nat.{mod-add-mod}
use petastorm.Prelude.{
  ℕ, suc, ◌+◌, ◌%◌, ◌≡◌, ◌≢◌, refl, ◌∙◌, sym, true, false, List, [], ◌∷◌, ◌++◌, append_assoc,
  append-nil, length, length-append, ◌==◌, if◌then◌else◌, arith, Bool-cases, inl, inr,
}
use petastorm.ThreadPool.{
  ThreadPool, Message, result, item_processed, failure, Outcome, messages, update, take_message,
  next_worker, stop,
}
use petastorm.ThreadPool.Left.{
  assigned, results_of-messages, ended, ended-messages, is_open_weaken, is_open-messages,
  nothing_left, all_messages, left,
}
use petastorm.ThreadPool.Consumer.{left-fields, left-taken}
use petastorm.ThreadPool.Order.{results_in_order, results_in_order-append}
use petastorm.ThreadPool.Robin.{IsRobin, caught_up, midway, values, values-append}

module _ {I R : Type 0} (process : I → Outcome R) where
  -- The state after the item `x`, of which nothing is left.
  next_item :
      (all : List I) (n : ℕ) (s : ThreadPool I R) (past : List I) (x : I) (xs : List I)
      → past ++ (x ∷ (xs ++ s.ventilator)) ≡ all
      → s.ventilated_items ≡ length past + 1 + length xs
      → s.get_results_worker_id ≡ (length past + 1) % n
      → values s.delivered ≡ results_in_order process past ++ (process x).results
      → ((w : ℕ) → left process s w ≡ all_messages process (assigned n (length past + 1) xs w))
      → IsRobin process all n s
  next_item all n s past x [] e1 e2 e3 e4 e7 =
      let l : length (past ++ x ∷ []) ≡ length past + 1 = length-append past (x ∷ []) in
      caught_up (past ++ x ∷ []) (rw append_assoc e1) (omega (arith, l, e2))
        (rw (results_in_order-append process past (x ∷ []), append-nil) e4) e7
        (λ h. let e : s.ventilated_items ≡ length past + 1 = omega (arith, e2) in rw (e3, e) refl)
  next_item all n s past x (y ∷ ys) e1 e2 e3 e4 e7 =
      let l : length (past ++ x ∷ []) ≡ length past + 1 = length-append past (x ∷ []) in
      midway (past ++ x ∷ []) y ys (messages (process y)) (rw append_assoc e1)
        (omega (arith, l, e2)) (rw l e3)
        (rw
          (
            e4,
            results_in_order-append process past (x ∷ []),
            append-nil,
            results_of-messages (process y),
          )
          refl)
        (is_open-messages false (process y)) (ended-messages (process y))
        (λ w.
          rw (e7 w, l)
            (elim (Bool-cases ((length past + 1) % n == w)) [
              | inl same ↦ rw same refl
              | inr other ↦ rw other refl
            ]))

  -- Nothing is taken where nothing is left.
  nothing_taken :
      (s : ThreadPool I R) (m : Message R) (ms : List (Message R)) (w : ℕ)
      → s.results_queues w ≡ m ∷ ms
      → left process s w ≢ []
  unfolding left
  nothing_taken s m ms w e h = let e' = rw e at h in cc

  front :
      (c rest u : List (Message R)) (m : Message R)
      → c ++ rest ≡ m ∷ u
      → ended c ≡ 1
      → (d : List (Message R)) × (c ≡ m ∷ d) × (u ≡ d ++ rest)
  front [] rest u m e one = absurd (omega arith)
  front (k ∷ d) rest u m e one = (d, cc, cc)

  -- The message that is taken is the first one of the current item.
  taken_front :
      (s : ThreadPool I R) (m : Message R) (ms c : List (Message R)) (k n : ℕ) (xs : List I)
      → s.results_queues s.get_results_worker_id ≡ m ∷ ms
      → s.get_results_worker_id ≡ k % n
      → ended c ≡ 1
      → ((w : ℕ)
          → left process s w
            ≡ (if k % n == w then c else []) ++ all_messages process (assigned n (k + 1) xs w))
      → let t = record s { results_queues = update s.results_queues s.get_results_worker_id ms } in
        (d : List (Message R)) × (c ≡ m ∷ d)
        × ((w : ℕ)
            → left process t w
              ≡ (if k % n == w then d else []) ++ all_messages process (assigned n (k + 1) xs w))
  taken_front s m ms c k n xs e cur one l =
      let t = record s { results_queues = update s.results_queues s.get_results_worker_id ms } in
      let v = s.get_results_worker_id in
      let rest = all_messages process (assigned n (k + 1) xs v) in
      let self : (v == v) ≡ true = ground arith in
      let here_too : (k % n == v) ≡ true = rw (← cur) self in
      let a : left process s v ≡ m ∷ left process t v =
        left-taken process s m ms e v ∙ rw self refl in
      let b : left process s v ≡ c ++ rest = l v ∙ rw here_too refl in
      let (d, split, after) = front c rest (left process t v) m (sym b ∙ a) one in
      (
        d,
        split,
        λ w. elim (Bool-cases (w == v)) [
          | inl same_worker ↦ let same : w ≡ v = ground arith in rw (same, here_too) after
          | inr other_worker ↦
              let other : (k % n == w) ≡ false = rw (← cur) (ground arith) in
              let f : left process s w ≡ left process t w =
                left-taken process s m ms e w ∙ rw other_worker refl in
              sym f ∙ l w ∙ rw other refl
        ],
      )

  pub take_message-IsRobin :
      (all : List I) (n : ℕ) (m : Message R) (ms : List (Message R)) (s : ThreadPool I R)
      → s.results_queues s.get_results_worker_id ≡ m ∷ ms
      → s.workers_count ≡ n
      → let t =
          take_message
            (record s { results_queues = update s.results_queues s.get_results_worker_id ms })
            m in
        t.stop_event ≡ false → IsRobin process all n s → IsRobin process all n t
  unfolding take_message next_worker stop
  take_message-IsRobin all n m ms s e wc going (caught_up handed e1 e2 e3 e4 e5) =
      absurd (nothing_taken s m ms s.get_results_worker_id e (e4 s.get_results_worker_id))
  take_message-IsRobin all n (result r) ms s e wc going (midway past x xs c e1 e2 e3 e4 e5 e6 e7) =
      let t = record s { results_queues = update s.results_queues s.get_results_worker_id ms } in
      let u = take_message t (result r) in
      let (d, split, l) = taken_front s (result r) ms c (length past) n xs e e3 e6 e7 in
      midway past x xs d e1 e2 e3 (rw (values-append s.delivered, append_assoc) (rw split at e4))
        (is_open_weaken d (rw split at e5)) (rw split at e6)
        (λ w. left-fields process t u refl refl refl w ∙ l w)
  take_message-IsRobin all n item_processed ms s e wc going
        (midway past x xs c e1 e2 e3 e4 e5 e6 e7) =
      let t = record s { results_queues = update s.results_queues s.get_results_worker_id ms } in
      let u = take_message t item_processed in
      let (d, split, l) = taken_front s item_processed ms c (length past) n xs e e3 e6 e7 in
      let one : suc (ended d) ≡ 1 = rw split at e6 in
      let over : d ≡ [] = nothing_left d (rw split at e5) (omega (arith, one)) in
      next_item all n u past x xs e1 e2 (rw (e3, wc) (mod-add-mod (length past) n 1))
        (sym (append-nil (values s.delivered)) ∙ rw (split, over) at e4)
        (λ w.
          left-fields process t u refl refl refl w
          ∙ l w
          ∙ rw over (elim (Bool-cases (length past % n == w)) [
            | inl same ↦ rw same refl
            | inr other ↦ rw other refl
          ]))
  take_message-IsRobin all n (failure x) ms s e wc going (midway past y xs c e1 e2 e3 e4 e5 e6 e7) =
      cc
