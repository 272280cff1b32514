-- ===== src/Ventilator/Steps.antt =====
-- The ventilation thread and its consumer as a step relation.
use petastorm.Prelude.{◌<◌, ◌≡◌, ok}
use petastorm.Ventilator.{ConcurrentVentilator, Thread, check, emit, processed_item, stop}

-- The consumer reports only items that it was given, and may ask to stop at any time.
pub data Step {A : Type 0} : ConcurrentVentilator A → ConcurrentVentilator A → Type 0 where
  checks : (v : ConcurrentVentilator A) → v.thread ≡ Thread.checking → Step v (check v)
  emits : (v w : ConcurrentVentilator A) → v.thread ≡ Thread.emitting → emit v ≡ ok w → Step v w
  processes :
      (v : ConcurrentVentilator A)
      → v.processed_items_count < v.ventilated_items_count
      → Step v (processed_item v)
  stops : (v : ConcurrentVentilator A) → Step v (stop v)

pub data Reach {A : Type 0} (v : ConcurrentVentilator A) : ConcurrentVentilator A → Type 0 where
  here : Reach v v
  next : {u w : ConcurrentVentilator A} → Reach v u → Step u w → Reach v w
