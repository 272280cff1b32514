-- ===== src/ThreadPool/Frames.antt =====
-- What a step leaves of the messages that are on their way: the workers move them along in order, and
-- only the ventilator adds some and the consumer takes some.
use petastorm.Prelude.{
  ℕ, ◌%◌, ◌≡◌, refl, true, false, List, [], ◌∷◌, ◌++◌, append_assoc, append-nil, ◌==◌,
  if◌then◌else◌, arith, Bool-cases, inl, inr,
}
use petastorm.ThreadPool.{
  ThreadPool, idle, busy, terminated, Message, Outcome, messages, after_put, update, ventilate,
}
use petastorm.ThreadPool.Left.{pending, pending-after_put, all_messages, all_messages-append, left}

module _ {I R : Type 0} (process : I → Outcome R) where
  pub left-starts_item :
      (s : ThreadPool I R) (w : ℕ) (x : I) (xs : List I)
      → s.workers w ≡ idle
      → s.ventilator_queues w ≡ x ∷ xs
      → (j : ℕ)
      → left process
          (record s {
            ventilator_queues = update s.ventilator_queues w xs;
            workers = update s.workers w (busy (messages (process x)));
          })
          j
        ≡ left process s j
  unfolding left
  left-starts_item s w x xs free waits j = elim (Bool-cases (j == w)) [
    | inl e ↦ let same : j ≡ w = ground arith in rw (e, same, free, waits) refl
    | inr e ↦ rw e refl
  ]

  pub left-puts :
      (s : ThreadPool I R) (w : ℕ) (m : Message R) (ms : List (Message R))
      → s.workers w ≡ busy (m ∷ ms)
      → (j : ℕ)
      → left process
          (record s {
            results_queues = update s.results_queues w (s.results_queues w ++ m ∷ []);
            workers = update s.workers w (after_put m ms);
          })
          j
        ≡ left process s j
  unfolding left
  left-puts s w m ms working j = elim (Bool-cases (j == w)) [
    | inl e ↦
        let same : j ≡ w = ground arith in
        rw (e, same, working, pending-after_put m ms, append_assoc) refl
    | inr e ↦ rw e refl
  ]

  -- A worker that leaves its loop sends nothing more, but its messages are not lost to the count.
  pub left-terminates :
      (s : ThreadPool I R) (w : ℕ) (ms : List (Message R))
      → pending (s.workers w) ≡ ms
      → (j : ℕ)
      → left process (record s { workers = update s.workers w (terminated ms) }) j
        ≡ left process s j
  unfolding left
  left-terminates s w ms working j = elim (Bool-cases (j == w)) [
    | inl e ↦ let same : j ≡ w = ground arith in rw (e, same, working) refl
    | inr e ↦ rw e refl
  ]

  pub left-ventilate :
      (s : ThreadPool I R) (rest : List I) (x : I) (j : ℕ)
      → left process (ventilate (record s { ventilator = rest }) x) j
        ≡ left process s j
          ++ all_messages process (if s.ventilated_items % s.workers_count == j then x ∷ [] else [])
  unfolding left ventilate
  left-ventilate s rest x j =
      let w = s.ventilated_items % s.workers_count in
      elim (Bool-cases (j == w)) [
        | inl e ↦
            let e' : (w == j) ≡ true = ground arith in
            let same : j ≡ w = ground arith in
            rw
              (
                e,
                e',
                ← same,
                all_messages-append process (s.ventilator_queues j),
                append_assoc,
                append_assoc,
              )
              refl
        | inr e ↦ let e' : (w == j) ≡ false = ground arith in rw (e, e', append-nil) refl
      ]
