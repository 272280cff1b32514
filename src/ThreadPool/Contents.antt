-- ===== src/ThreadPool/Contents.antt =====
-- The invariant of one worker: the results that were delivered and those on their way. The step of the
-- ventilator.
use petastorm.Prelude.{
  ℕ, ◌+◌, ◌%◌, ◌≡◌, refl, true, false, List, [], ◌∷◌, ◌++◌, append_assoc, ◌==◌, if◌then◌else◌,
  arith, Bool-cases, inl, inr,
}
use petastorm.ThreadPool.{ThreadPool, Outcome, ventilate}
use petastorm.ThreadPool.Left.{
  results_of, results_of-append, ended, ended-append, is_open, is_open-append, is_open-all_messages,
  from_worker, all_messages, all_messages-append, ended-all_messages, left,
}
use petastorm.ThreadPool.Frames.{left-ventilate}

module _ {I R : Type 0} (process : I → Outcome R) where
  -- What holds of one worker, `items` being those that were handed to it: the results on their way
  -- follow those that were delivered, and the items on their way are those that are counted as such.
  pub record IsInOrder (s : ThreadPool I R) (items : List I) (w : ℕ) : Type 0 where
    pub contents :
        results_of (all_messages process items)
        ≡ from_worker w s.delivered ++ results_of (left process s w)
    pub closed : is_open false (left process s w) ≡ false
    pub counted :
        s.stop_event ≡ false
        → s.ventilated_items_by_worker w
          ≡ s.ventilated_items_processed_by_worker w + ended (left process s w)

  -- A step that leaves the messages of each worker alone, and the counts.
  pub IsInOrder-frame :
      (s t : ThreadPool I R) (items : List I) (w : ℕ)
      → left process t w ≡ left process s w
      → t.delivered ≡ s.delivered
      → t.stop_event ≡ s.stop_event
      → t.ventilated_items_by_worker ≡ s.ventilated_items_by_worker
      → t.ventilated_items_processed_by_worker ≡ s.ventilated_items_processed_by_worker
      → IsInOrder s items w
      → IsInOrder t items w
  IsInOrder-frame s t items w l d e b p h = record {
    contents = rw (l, d) h.contents;
    closed = rw l h.closed;
    counted = λ going. rw (l, b, p) (h.counted (rw (← e) going));
  }

  pub ventilate-IsInOrder :
      (s : ThreadPool I R) (rest items : List I) (x : I) (w : ℕ)
      → IsInOrder s items w
      → IsInOrder
          (ventilate (record s { ventilator = rest }) x)
          (items ++ (if s.ventilated_items % s.workers_count == w then x ∷ [] else []))
          w
  unfolding ventilate
  ventilate-IsInOrder s rest items x w h =
      let v = s.ventilated_items % s.workers_count in
      let more = if v == w then x ∷ [] else [] in
      let l = left-ventilate process s rest x w in
      record {
        contents =
            rw
              (
                l,
                all_messages-append process items,
                results_of-append (all_messages process items),
                h.contents,
                results_of-append (left process s w),
                append_assoc,
              )
              refl;
        closed =
            rw (l, is_open-append false (left process s w), h.closed)
              (is_open-all_messages process more);
        counted = λ going.
            let c = h.counted going in
            let e = ended-append (left process s w) (all_messages process more) in
            let k = ended-all_messages process more in
            elim (Bool-cases (v == w)) [
              | inl same_worker ↦
                  let there : (w == v) ≡ true = ground arith in
                  let same : w ≡ v = ground arith in
                  rw (l, there, e, k, same_worker, ← same) (omega (arith, c))
              | inr other_worker ↦
                  let there : (w == v) ≡ false = ground arith in
                  rw (l, there, e, k, other_worker) (omega (arith, c))
            ];
      }
