-- ===== src/Ventilator/Progress.antt =====
-- The ventilator goes on while it may, and what `reset` does.
use petastorm.Prelude.{
  ◌+◌, ◌<◌, ◌≡◌, ◌↔◌, refl, true, false, List, length, ok, raise, not_implemented_error, arith,
}
use petastorm.Ventilator.{
  ConcurrentVentilator, Thread, Shuffle, completed, check, emit, reset, start,
}
use petastorm.Ventilator.Invariant.{IsValid, check-IsValid}
use petastorm.Ventilator.Emit.{emit-IsValid}

module _ {A : Type 0} where
  check_goes_on :
      (v : ConcurrentVentilator A)
      → completed v ≡ false
      → v.ventilated_items_count < v.processed_items_count + v.max_ventilation_queue_size
      → check v ≡ record v { thread = Thread.emitting }
  unfolding check
  check_goes_on v going room = rw going (ground arith)

  emit-count :
      (v w : ConcurrentVentilator A)
      → emit v ≡ ok w
      → w.ventilated_items_count ≡ v.ventilated_items_count + 1
  unfolding emit
  emit-count v w e = ground arith

  -- At the top of its loop, with work left and room in the queue, the thread hands out one more
  -- item in its next two steps: the index is in range, so that nothing is raised.
  pub hands_out_next :
      {items : List A} (v : ConcurrentVentilator A)
      → IsValid items v
      → completed v ≡ false
      → v.ventilated_items_count < v.processed_items_count + v.max_ventilation_queue_size
      → (w : ConcurrentVentilator A) × (emit (check v) ≡ ok w)
        × IsValid items w
        × (length w.ventilated ≡ length v.ventilated + 1)
  hands_out_next {items} v h going room =
      let goes = check_goes_on v going room in
      let h' : IsValid items (record v { thread = Thread.emitting }) =
        rw goes at (check-IsValid h) in
      let (w, runs, valid) = emit-IsValid refl h' in
      let count = emit-count (record v { thread = Thread.emitting }) w runs in
      (w, rw goes runs, valid, omega (arith, valid.counted, h.counted, count))

  -- `reset` is refused exactly while the ventilator is at work.
  pub reset-raises_iff :
      (s : Shuffle A) (v : ConcurrentVentilator A)
      → (reset s v ≡ raise not_implemented_error) ↔ (completed v ≡ false)
  unfolding reset
  reset-raises_iff s v = (λ h. ground arith, λ h. ground arith)

  -- After `stop`, `reset` restores the iterations and starts the thread again, but the thread
  -- returns at its first test: nothing more is handed out.
  pub reset_after_stop :
      (s : Shuffle A) (v : ConcurrentVentilator A)
      → v.stop_requested ≡ true
      → (w : ConcurrentVentilator A) × (reset s v ≡ ok w)
        × (w.iterations_remaining ≡ v.iterations)
        × (check w ≡ record w { thread = Thread.returned })
        × (w.ventilated ≡ v.ventilated)
  unfolding reset completed start check
  reset_after_stop s v h = (
    start s (record v { iterations_remaining = v.iterations }),
    ground arith,
    refl,
    ground arith,
    refl,
  )
