-- ===== src/Ventilator/Emit.antt =====
-- The body of the loop keeps the invariant, and never raises.
use petastorm.Prelude.{
  suc, ◌+◌, ◌≤◌, ◌<◌, ◌≡◌, ◌≢◌, refl, sym, ap, ◌∙◌, some, List, [], ◌∷◌, ◌++◌, length, take, ok,
  arith, append_assoc, append-nil, length-append, take_of_length-le,
}
use native.Mathlib.Decide.{dec_le}
use native.Mathlib.Numerals.{add-one}
use petastorm.Indexing.{get_item, get_item_in_range}
use petastorm.Ventilator.{ConcurrentVentilator, Thread, emit, one_less}
use petastorm.Ventilator.Invariant.{passes, IsValid, LeftOver-less, Place}

module _ {A : Type 0} where
  -- The state before `wrap`: one item more, and the index after it.
  abbrev handed : ConcurrentVentilator A → A → ConcurrentVentilator A
  handed v x = record v {
    ventilated = v.ventilated ++ x ∷ [];
    current_item_to_ventilate = v.current_item_to_ventilate + 1;
    ventilated_items_count = v.ventilated_items_count + 1;
    thread = Thread.checking;
  }

  module _ {items : List A} (v : ConcurrentVentilator A) (h : IsValid items v) (x : A)
      (step : take (suc v.current_item_to_ventilate) items
        ≡ take v.current_item_to_ventilate items ++ x ∷ [])
      (less : v.ventilated_items_count
        < v.processed_items_count + v.max_ventilation_queue_size) where
    log_step :
        v.ventilated ++ x ∷ [] ≡ passes h.done items ++ take (suc v.current_item_to_ventilate) items
    log_step = rw (step, h.handed_out) (append_assoc (passes h.done items) _ (x ∷ []))

    next-IsValid :
        v.iterations_remaining ≢ some 0
        → v.current_item_to_ventilate + 1 < length items
        → IsValid items (handed v x)
    next-IsValid ne inside = record {
      same_items = h.same_items;
      done = h.done;
      handed_out = rw add-one log_step;
      in_range = omega arith;
      left = h.left;
      counted = omega (arith, h.counted, length-append v.ventilated (x ∷ []));
      reported = omega (arith, h.reported);
      ahead = omega arith;
      at_end = λ e. absurd (ne e);
      room = tt;
    }

    last-IsValid :
        length items ≤ v.current_item_to_ventilate + 1
        → v.iterations_remaining ≢ some 0
        → IsValid items (record (handed v x) {
          current_item_to_ventilate = 0;
          iterations_remaining = one_less v.iterations_remaining;
        })
    unfolding passes
    last-IsValid full ne = record {
      same_items = h.same_items;
      done = suc h.done;
      handed_out =
          log_step
          ∙ ap (λ xs. passes h.done items ++ xs)
              (take_of_length-le (suc v.current_item_to_ventilate) items (omega arith))
          ∙ sym (append-nil (passes h.done items ++ items));
      in_range = omega arith;
      left = LeftOver-less v.iterations h.done v.iterations_remaining h.left ne;
      counted = omega (arith, h.counted, length-append v.ventilated (x ∷ []));
      reported = omega (arith, h.reported);
      ahead = omega arith;
      at_end = λ _. refl;
      room = tt;
    }

  emit_next :
      (v : ConcurrentVentilator A) (x : A)
      → get_item v.items_to_ventilate v.current_item_to_ventilate ≡ ok x
      → v.current_item_to_ventilate + 1 < length v.items_to_ventilate
      → emit v ≡ ok (handed v x)
  unfolding emit
  emit_next v x found inside = ground arith

  emit_last :
      (v : ConcurrentVentilator A) (x : A)
      → get_item v.items_to_ventilate v.current_item_to_ventilate ≡ ok x
      → length v.items_to_ventilate ≤ v.current_item_to_ventilate + 1
      → emit v
        ≡ ok (record (handed v x) {
          current_item_to_ventilate = 0;
          iterations_remaining = one_less v.iterations_remaining;
        })
  unfolding emit
  emit_last v x found at_end = ground arith

  emitting_room :
      {items : List A} {v : ConcurrentVentilator A}
      → v.thread ≡ Thread.emitting
      → IsValid items v
      → Place Thread.emitting v.ventilated_items_count
          (v.processed_items_count + v.max_ventilation_queue_size)
          v.iterations_remaining
          (length items)
          v.stop_requested
  emitting_room e h = rw e at h.room

  -- In the body of the loop there is an item at the current index, so that `emit` does not raise.
  pub emit-IsValid :
      {items : List A} {v : ConcurrentVentilator A}
      → v.thread ≡ Thread.emitting
      → IsValid items v
      → (w : ConcurrentVentilator A) × (emit v ≡ ok w) × IsValid items w
  unfolding emit
  emit-IsValid {items} {v} e h =
      let (less, ne, pos) = emitting_room e h in
      let (x, found, step) =
        get_item_in_range items v.current_item_to_ventilate (omega (arith, h.in_range)) in
      let found' : get_item v.items_to_ventilate v.current_item_to_ventilate ≡ ok x =
        rw h.same_items found in
      elim (dec_le (length items) (v.current_item_to_ventilate + 1)) [
        | yes at_end ↦ (
          _,
          emit_last v x found' (rw h.same_items at_end),
          last-IsValid v h x step less at_end ne,
        )
        | no inside ↦ (
          handed v x,
          emit_next v x found' (rw h.same_items (omega arith)),
          next-IsValid v h x step less ne (omega arith),
        )
      ]
