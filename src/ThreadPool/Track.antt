-- ===== src/ThreadPool/Track.antt =====
-- The invariant of the pool in every schedule.
use petastorm.Prelude.{
  ℕ, ◌%◌, ◌≡◌, refl, ap, ◌∙◌, false, List, [], ◌∷◌, ◌++◌, append_assoc, append-nil, length,
  length-append, ◌==◌, if◌then◌else◌, arith, Bool-cases, inl, inr,
}
use petastorm.ThreadPool.{
  ThreadPool, Message, result, item_processed, failure, Outcome, init, ventilate, stop, next_worker,
  take_message, take, consume_at, consume, Phase, current_worker_done,
}
use petastorm.ThreadPool.Left.{assigned, assigned-append, pending, left}
use petastorm.ThreadPool.Steps.{
  Step, Reach, ventilates, starts_item, puts, gives_up, exits, consumes, stops, here, next,
}
use petastorm.ThreadPool.Frames.{left-starts_item, left-puts, left-terminates}
use petastorm.ThreadPool.Contents.{IsInOrder, IsInOrder-frame, ventilate-IsInOrder}
use petastorm.ThreadPool.Consumer.{left-fields, take_message-IsInOrder, stop-IsInOrder}

module _ {I R : Type 0} (process : I → Outcome R) where
  -- `all` are the items of the ventilator, `handed` those that were handed out, and `dropped` those that
  -- `stop` kept back.
  pub record IsOnTrack (all : List I) (n : ℕ) (s : ThreadPool I R) : Type 0 where
    pub handed : List I
    pub dropped : List I
    pub workers_count : s.workers_count ≡ n
    pub items : handed ++ (s.ventilator ++ dropped) ≡ all
    pub length_handed : s.ventilated_items ≡ length handed
    pub nothing_dropped : s.stop_event ≡ false → dropped ≡ []
    pub workers : (w : ℕ) → IsInOrder process s (assigned n 0 handed w) w

  pub init-IsOnTrack : (n size : ℕ) (all : List I) → IsOnTrack all n (init n size all)
  unfolding init left
  init-IsOnTrack n size all = record {
    handed = [];
    dropped = [];
    workers_count = refl;
    items = append-nil all;
    length_handed = refl;
    nothing_dropped = λ h. refl;
    workers = λ w. record { contents = refl; closed = refl; counted = λ h. omega arith };
  }

  stop-IsOnTrack :
      (all : List I) (n : ℕ) (s : ThreadPool I R) → IsOnTrack all n s → IsOnTrack all n (stop s)
  unfolding stop
  stop-IsOnTrack all n s h = record {
    handed = h.handed;
    dropped = s.ventilator ++ h.dropped;
    workers_count = h.workers_count;
    items = h.items;
    length_handed = h.length_handed;
    nothing_dropped = λ going. cc;
    workers = λ w. stop-IsInOrder process s (assigned n 0 h.handed w) w (h.workers w);
  }

  -- A step that only changes what the invariant of a worker speaks of.
  IsOnTrack-frame :
      (all : List I) (n : ℕ) (s t : ThreadPool I R)
      → t.workers_count ≡ s.workers_count
      → t.ventilator ≡ s.ventilator
      → t.ventilated_items ≡ s.ventilated_items
      → t.stop_event ≡ s.stop_event
      → (h : IsOnTrack all n s) → ((w : ℕ) → IsInOrder process t (assigned n 0 h.handed w) w)
      → IsOnTrack all n t
  IsOnTrack-frame all n s t a b c d h each = record {
    handed = h.handed;
    dropped = h.dropped;
    workers_count = a ∙ h.workers_count;
    items = rw b h.items;
    length_handed = c ∙ h.length_handed;
    nothing_dropped = λ going. h.nothing_dropped (rw (← d) going);
    workers = each;
  }

  -- The step moves messages along.
  IsOnTrack-moved :
      (all : List I) (n : ℕ) (s t : ThreadPool I R)
      → t.workers_count ≡ s.workers_count
      → t.ventilator ≡ s.ventilator
      → t.ventilated_items ≡ s.ventilated_items
      → t.stop_event ≡ s.stop_event
      → t.delivered ≡ s.delivered
      → t.ventilated_items_by_worker ≡ s.ventilated_items_by_worker
      → t.ventilated_items_processed_by_worker ≡ s.ventilated_items_processed_by_worker
      → ((w : ℕ) → left process t w ≡ left process s w)
      → IsOnTrack all n s
      → IsOnTrack all n t
  IsOnTrack-moved all n s t a b c d e f g l h =
      IsOnTrack-frame all n s t a b c d h
        (λ w. IsInOrder-frame process s t (assigned n 0 h.handed w) w (l w) e d f g (h.workers w))

  ventilate-IsOnTrack :
      (all : List I) (n : ℕ) (s : ThreadPool I R) (x : I) (rest : List I)
      → s.ventilator ≡ x ∷ rest
      → IsOnTrack all n s
      → IsOnTrack all n (ventilate (record s { ventilator = rest }) x)
  unfolding ventilate
  ventilate-IsOnTrack all n s x rest e h = record {
    handed = h.handed ++ x ∷ [];
    dropped = h.dropped;
    workers_count = h.workers_count;
    items = rw append_assoc (rw e at h.items);
    length_handed = rw (length-append h.handed (x ∷ [])) (omega (arith, h.length_handed));
    nothing_dropped = h.nothing_dropped;
    workers = λ w.
        let t = ventilate (record s { ventilator = rest }) x in
        let a : assigned n 0 (h.handed ++ x ∷ []) w
            ≡ assigned n 0 h.handed w
              ++ (if s.ventilated_items % s.workers_count == w then x ∷ [] else []) =
          rw (assigned-append n 0 h.handed x w, h.length_handed, h.workers_count)
            (ap (λ (k : ℕ). assigned n 0 h.handed w ++ (if k % n == w then x ∷ [] else []))
              (omega arith)) in
        rw a (ventilate-IsInOrder process s rest (assigned n 0 h.handed w) x w (h.workers w));
  }

  -- `take` from the current worker's queue.
  take-IsOnTrack :
      (all : List I) (n : ℕ) (ms : List (Message R)) (s : ThreadPool I R)
      → s.results_queues s.get_results_worker_id ≡ ms
      → IsOnTrack all n s
      → IsOnTrack all n (take s ms)
  unfolding take take_message next_worker stop
  take-IsOnTrack all n [] s e h =
      IsOnTrack-moved all n s (record s { phase = Phase.looking }) refl refl refl refl refl refl
        refl (λ w. left-fields process s (record s { phase = Phase.looking }) refl refl refl w) h
  take-IsOnTrack all n (result r ∷ ms) s e h =
      IsOnTrack-frame all n s (take s (result r ∷ ms)) refl refl refl refl h (λ w.
        take_message-IsInOrder process (result r) ms s (assigned n 0 h.handed w) w e (h.workers w))
  take-IsOnTrack all n (item_processed ∷ ms) s e h =
      IsOnTrack-frame all n s (take s (item_processed ∷ ms)) refl refl refl refl h (λ w.
        take_message-IsInOrder process item_processed ms s (assigned n 0 h.handed w) w e
          (h.workers w))
  take-IsOnTrack all n (failure x ∷ ms) s e h = record {
    handed = h.handed;
    dropped = s.ventilator ++ h.dropped;
    workers_count = h.workers_count;
    items = h.items;
    length_handed = h.length_handed;
    nothing_dropped = λ going. cc;
    workers = λ w.
        take_message-IsInOrder process (failure x) ms s (assigned n 0 h.handed w) w e (h.workers w);
  }

  -- The consumer only turns to another phase, or worker.
  turn-IsOnTrack :
      (all : List I) (n : ℕ) (s : ThreadPool I R) (p : Phase) (w : ℕ)
      → IsOnTrack all n s
      → IsOnTrack all n (record s { phase = p; get_results_worker_id = w })
  turn-IsOnTrack all n s p w h =
      let t = record s { phase = p; get_results_worker_id = w } in
      IsOnTrack-moved all n s t refl refl refl refl refl refl refl
        (λ j. left-fields process s t refl refl refl j) h

  consume_at-IsOnTrack :
      (all : List I) (n : ℕ) (p : Phase) (s : ThreadPool I R)
      → IsOnTrack all n s
      → IsOnTrack all n (consume_at p s)
  unfolding consume_at next_worker
  consume_at-IsOnTrack all n Phase.looking s h = turn-IsOnTrack all n s _ s.get_results_worker_id h
  consume_at-IsOnTrack all n Phase.done_seen s h =
      turn-IsOnTrack all n s _ s.get_results_worker_id h
  consume_at-IsOnTrack all n Phase.choosing s h =
      elim (Bool-cases (current_worker_done s s.get_results_worker_id)) [
        | inl is_done ↦ rw is_done (turn-IsOnTrack all n s Phase.looking _ h)
        | inr not_done ↦
            rw not_done (turn-IsOnTrack all n s Phase.getting s.get_results_worker_id h)
      ]
  consume_at-IsOnTrack all n Phase.getting s h = take-IsOnTrack all n _ s refl h
  consume_at-IsOnTrack all n Phase.empty_result s h =
      turn-IsOnTrack all n s _ s.get_results_worker_id h
  consume_at-IsOnTrack all n (Phase.failed e) s h =
      turn-IsOnTrack all n s _ s.get_results_worker_id h

  Step-IsOnTrack :
      (all : List I) (n : ℕ) (s : ThreadPool I R) {t : ThreadPool I R}
      → IsOnTrack all n s
      → Step process s t
      → IsOnTrack all n t
  unfolding consume
  Step-IsOnTrack all n s h (ventilates x rest e) = ventilate-IsOnTrack all n s x rest e h
  Step-IsOnTrack all n s h (starts_item w x xs b free waits) =
      IsOnTrack-moved all n s _ refl refl refl refl refl refl refl
        (left-starts_item process s w x xs free waits) h
  Step-IsOnTrack all n s h (puts w m ms b working room) =
      IsOnTrack-moved all n s _ refl refl refl refl refl refl refl
        (left-puts process s w m ms working) h
  Step-IsOnTrack all n s h (gives_up w m ms b stopped working f) =
      IsOnTrack-moved all n s _ refl refl refl refl refl refl refl
        (left-terminates process s w (m ∷ ms) (ap pending working)) h
  Step-IsOnTrack all n s h (exits w b stopped free) =
      IsOnTrack-moved all n s _ refl refl refl refl refl refl refl
        (left-terminates process s w [] (ap pending free)) h
  Step-IsOnTrack all n s h consumes = consume_at-IsOnTrack all n s.phase s h
  Step-IsOnTrack all n s h stops = stop-IsOnTrack all n s h

  pub Reach-IsOnTrack :
      (all : List I) (n : ℕ) (P : (t u : ThreadPool I R) → Step process t u → Type 0)
      {s t : ThreadPool I R}
      → IsOnTrack all n s
      → Reach process P s t
      → IsOnTrack all n t
  Reach-IsOnTrack all n P h here = h
  Reach-IsOnTrack all n P h (next {t} run step p) =
      Step-IsOnTrack all n t (Reach-IsOnTrack all n P h run) step
