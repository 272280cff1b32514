-- ===== src/ThreadPool/Determinism.antt =====
-- Strict round robin in every schedule in which the consumer does not get ahead of the ventilator.
use petastorm.Prelude.{
  ℕ, zero, suc, ◌+◌, ◌%◌, ◌≡◌, ◌≢◌, refl, ◌∙◌, true, false, List, [], ◌∷◌, ◌++◌, length, ◌==◌,
  arith,
}
use petastorm.ThreadPool.{
  ThreadPool, Message, Outcome, is_empty, init, current_worker_done, workers_done, all_workers_done,
  take, take_message, next_worker, stop, consume_at, consume, Phase, ventilate,
}
use petastorm.ThreadPool.Left.{assigned, ended, ended-append, all_messages, left}
use petastorm.ThreadPool.Frames.{left-starts_item, left-puts}
use petastorm.ThreadPool.Consumer.{left-fields}
use petastorm.ThreadPool.Track.{IsOnTrack, init-IsOnTrack, Reach-IsOnTrack}
use petastorm.ThreadPool.Robin.{
  IsRobin, caught_up, midway, IsRobin-moved, init-IsRobin, ventilate-IsRobin,
}
use petastorm.ThreadPool.RoundRobin.{take_message-IsRobin}
use petastorm.ThreadPool.Steps.{
  Step, Reach, Always, IsAhead, by_consumer, ventilates, starts_item, puts, gives_up, exits,
  consumes, stops, here, next,
}

nil_of_append : {A : Type 0} (xs ys : List A) → xs ++ ys ≡ [] → xs ≡ []
nil_of_append [] ys h = refl
nil_of_append (x ∷ xs) ys h = cc

module _ {I R : Type 0} (process : I → Outcome R) where
  -- A worker of which nothing is left is done.
  nothing_left-current_worker_done :
      (s : ThreadPool I R) (w : ℕ)
      → s.ventilated_items_by_worker w
        ≡ s.ventilated_items_processed_by_worker w + ended (left process s w)
      → left process s w ≡ []
      → current_worker_done s w ≡ true
  unfolding current_worker_done left is_empty
  nothing_left-current_worker_done s w c l =
      let e : s.results_queues w ≡ [] = nil_of_append (s.results_queues w) _ l in
      rw e (ground (arith, c, l))

  nothing_left-workers_done :
      (n : ℕ) (s : ThreadPool I R)
      → ((w : ℕ) → current_worker_done s w ≡ true)
      → workers_done n s ≡ true
  unfolding workers_done
  nothing_left-workers_done zero s h = refl
  nothing_left-workers_done (suc n) s h = rw (nothing_left-workers_done n s h, h n) refl

  -- A worker with an unfinished item is not done.
  pub unfinished-current_worker_done :
      (s : ThreadPool I R) (w : ℕ)
      → s.ventilated_items_by_worker w
        ≡ s.ventilated_items_processed_by_worker w + ended (left process s w)
      → ended (left process s w) ≢ 0
      → current_worker_done s w ≡ false
  unfolding current_worker_done
  unfinished-current_worker_done s w c l = ground (arith, c, l)

  take-IsRobin :
      (all : List I) (n : ℕ) (ms : List (Message R)) (s : ThreadPool I R)
      → s.results_queues s.get_results_worker_id ≡ ms
      → s.workers_count ≡ n
      → (take s ms).stop_event ≡ false
      → IsRobin process all n s
      → IsRobin process all n (take s ms)
  unfolding take
  take-IsRobin all n [] s e wc going h =
      let t = record s { phase = Phase.looking } in
      IsRobin-moved process all n s t refl refl refl refl (left-fields process s t refl refl refl) h
  take-IsRobin all n (m ∷ ms) s e wc going h =
      take_message-IsRobin process all n m ms s e wc going h

  turn-IsRobin :
      (all : List I) (n : ℕ) (s : ThreadPool I R) (p : Phase)
      → IsRobin process all n s
      → IsRobin process all n (record s { phase = p })
  turn-IsRobin all n s p h =
      let t = record s { phase = p } in
      IsRobin-moved process all n s t refl refl refl refl (left-fields process s t refl refl refl) h

  choosing-IsRobin :
      (all : List I) (n : ℕ) (s : ThreadPool I R)
      → ((w : ℕ)
          → s.ventilated_items_by_worker w
            ≡ s.ventilated_items_processed_by_worker w + ended (left process s w))
      → (all_workers_done s ≡ true → s.ventilator ≡ [])
      → IsRobin process all n s
      → IsRobin process all n (consume_at Phase.choosing s)
  unfolding consume_at next_worker all_workers_done
  choosing-IsRobin all n s counted ahead (caught_up handed e1 e2 e3 e4 e5) =
      let each : (w : ℕ) → current_worker_done s w ≡ true =
        λ w. nothing_left-current_worker_done s w (counted w) (e4 w) in
      let over = ahead (nothing_left-workers_done s.workers_count s each) in
      rw (each s.get_results_worker_id) (
        caught_up handed e1 e2 e3
          (λ w. left-fields process s (next_worker s) refl refl refl w ∙ e4 w)
          (λ h. absurd (h over)))
  choosing-IsRobin all n s counted ahead (midway past x xs c e1 e2 e3 e4 e5 e6 e7) =
      let v = s.get_results_worker_id in
      let self : (length past % n == v) ≡ true = rw (← e3) (ground arith) in
      let rest = all_messages process (assigned n (length past + 1) xs v) in
      let l : left process s v ≡ c ++ rest = e7 v ∙ rw self refl in
      let some_left : ended (left process s v) ≢ 0 =
        rw (l, ended-append c rest, e6) (λ h. omega (arith, h)) in
      rw (unfinished-current_worker_done s v (counted v) some_left)
        (turn-IsRobin all n s Phase.getting (midway past x xs c e1 e2 e3 e4 e5 e6 e7))

  consume_at-IsRobin :
      (all : List I) (n : ℕ) (p : Phase) (s : ThreadPool I R)
      → s.workers_count ≡ n
      → ((w : ℕ)
          → s.ventilated_items_by_worker w
            ≡ s.ventilated_items_processed_by_worker w + ended (left process s w))
      → (p ≡ Phase.choosing → all_workers_done s ≡ true → s.ventilator ≡ [])
      → (consume_at p s).stop_event ≡ false
      → IsRobin process all n s
      → IsRobin process all n (consume_at p s)
  unfolding consume_at
  consume_at-IsRobin all n Phase.looking s wc counted ahead going h = turn-IsRobin all n s _ h
  consume_at-IsRobin all n Phase.done_seen s wc counted ahead going h = turn-IsRobin all n s _ h
  consume_at-IsRobin all n Phase.choosing s wc counted ahead going h =
      choosing-IsRobin all n s counted (ahead refl) h
  consume_at-IsRobin all n Phase.getting s wc counted ahead going h =
      take-IsRobin all n (s.results_queues s.get_results_worker_id) s refl wc going h
  consume_at-IsRobin all n Phase.empty_result s wc counted ahead going h = turn-IsRobin all n s _ h
  consume_at-IsRobin all n (Phase.failed e) s wc counted ahead going h = turn-IsRobin all n s _ h

  consume_at-stop_event :
      (p : Phase) (s : ThreadPool I R) → (consume_at p s).stop_event ≡ false → s.stop_event ≡ false
  unfolding consume_at take take_message next_worker stop
  consume_at-stop_event p s going = ground arith

  -- While nothing is stopped or failed, nothing was.
  Step-stop_event :
      (s : ThreadPool I R) {t : ThreadPool I R}
      → Step process s t
      → t.stop_event ≡ false
      → s.stop_event ≡ false
  unfolding ventilate stop consume
  Step-stop_event s (ventilates x rest e) going = going
  Step-stop_event s (starts_item w x xs b free waits) going = going
  Step-stop_event s (puts w m ms b working room) going = going
  Step-stop_event s (gives_up w m ms b stopped working f) going = going
  Step-stop_event s (exits w b stopped free) going = going
  Step-stop_event s consumes going = consume_at-stop_event s.phase s going
  Step-stop_event s stops going = cc

  Step-IsRobin :
      (all : List I) (n : ℕ) (s : ThreadPool I R) {t : ThreadPool I R}
      → IsOnTrack process all n s
      → IsRobin process all n s
      → s.stop_event ≡ false
      → t.stop_event ≡ false
      → (step : Step process s t) → IsAhead process s t step
      → IsRobin process all n t
  unfolding consume stop by_consumer
  Step-IsRobin all n s h r going goes_on (ventilates x rest e) ahead =
      ventilate-IsRobin process all n s x rest h.workers_count e r
  Step-IsRobin all n s h r going goes_on (starts_item w x xs b free waits) ahead =
      IsRobin-moved process all n s _ refl refl refl refl
        (left-starts_item process s w x xs free waits) r
  Step-IsRobin all n s h r going goes_on (puts w m ms b working room) ahead =
      IsRobin-moved process all n s _ refl refl refl refl (left-puts process s w m ms working) r
  Step-IsRobin all n s h r going goes_on (gives_up w m ms b stopped working f) ahead = cc
  Step-IsRobin all n s h r going goes_on (exits w b stopped free) ahead = cc
  Step-IsRobin all n s h r going goes_on consumes ahead =
      consume_at-IsRobin all n s.phase s h.workers_count (λ w. (h.workers w).counted going)
        (ahead refl) goes_on r
  Step-IsRobin all n s h r going goes_on stops ahead = cc

  -- A run of which every state has a property is a run.
  pub forget :
      (P : (t u : ThreadPool I R) → Step process t u → Type 0) {s t : ThreadPool I R}
      → Reach process P s t
      → Reach process (Always process) s t
  forget P here = here
  forget P (next run step p) = next (forget P run) step tt

  pub Reach-IsRobin :
      (all : List I) (n size : ℕ) {t : ThreadPool I R}
      → Reach process (IsAhead process) (init n size all) t
      → t.stop_event ≡ false
      → IsRobin process all n t
  Reach-IsRobin all n size here going = init-IsRobin process n size all
  Reach-IsRobin all n size (next {t} run step p) going =
      let h =
        Reach-IsOnTrack process all n (IsAhead process) (init-IsOnTrack process n size all) run in
      let before = Step-stop_event t step going in
      Step-IsRobin all n t h (Reach-IsRobin all n size run before) before going step p
