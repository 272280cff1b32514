-- ===== src/Ventilator/Order.antt =====
-- What the ventilator hands out, and how far it runs ahead of the consumer.
use mathlib.Core.Path.{subst}
use petastorm.Prelude.{
  ℕ, zero, suc, ◌+◌, ◌≤◌, ◌≡◌, refl, sym, ◌∙◌, Bool, false, Option, none, some, List, [], ◌∷◌, ◌++◌,
  length, take, take-nil, ok, arith, append-nil, inl, inr, ◌⊎◌, Result,
}
use petastorm.Ventilator.{
  ConcurrentVentilator, Thread, Shuffle, init, start, check, emit, processed_item, stop,
}
use petastorm.Ventilator.Steps.{Step, Reach, checks, emits, processes, stops, here, next}
use petastorm.Ventilator.Invariant.{
  passes, IsValid, LeftOver, check-IsValid, processed_item-IsValid, stop-IsValid,
}
use petastorm.Ventilator.Emit.{emit-IsValid}

LeftOver-zero : (total : Option ℕ) → LeftOver total 0 total
LeftOver-zero none = tt
LeftOver-zero (some n) = omega arith

LeftOver-all :
    (n done : ℕ) (total left : Option ℕ)
    → LeftOver total done left
    → total ≡ some n
    → left ≡ some 0
    → n ≡ done
LeftOver-all n done none left h e z = cc
LeftOver-all n done (some m) none h e z = cc
LeftOver-all n done (some m) (some k) h e z = ground arith

module _ {A : Type 0} where
  passes-nil : (n : ℕ) → passes {A = A} n [] ≡ []
  unfolding passes
  passes-nil zero = refl
  passes-nil (suc n) = rw (passes-nil n)

  -- What was emitted is what `emit` gives.
  ok-injective : {v w : ConcurrentVentilator A} → Result.ok v ≡ ok w → v ≡ w
  ok-injective h = ground arith

  pub Step-IsValid :
      {items : List A} {v w : ConcurrentVentilator A} → Step v w → IsValid items v → IsValid items w
  Step-IsValid (checks v e) h = check-IsValid h
  Step-IsValid {items} (emits v w e runs) h =
      let (w', runs', valid) = emit-IsValid e h in
      subst (IsValid items) (ok-injective (sym runs' ∙ runs)) valid
  Step-IsValid (processes v less) h = processed_item-IsValid less h
  Step-IsValid (stops v) h = stop-IsValid h

  pub Reach-IsValid :
      {items : List A} {v w : ConcurrentVentilator A}
      → IsValid items v
      → Reach v w
      → IsValid items w
  Reach-IsValid h here = h
  Reach-IsValid h (next r s) = Step-IsValid s (Reach-IsValid h r)

  -- The constructor's only test is that of the iterations.
  init-eq :
      (items : List A) (iterations : Option ℕ) (randomize : Bool) (seed max_size : Option ℕ)
      (v : ConcurrentVentilator A)
      → init items iterations randomize seed max_size ≡ ok v
      → (v.iterations ≡ iterations)
        × (v.iterations_remaining ≡ iterations)
        × (v.current_item_to_ventilate ≡ 0)
        × (v.ventilated_items_count ≡ 0)
        × (v.processed_items_count ≡ 0)
        × (v.ventilated ≡ [])
        × (v.items_to_ventilate ≡ items)
  unfolding init
  init-eq items iterations randomize seed max_size v e = ground arith

  pub start-IsValid :
      (items : List A) (iterations : Option ℕ) (randomize : Bool) (seed max_size : Option ℕ)
      (v : ConcurrentVentilator A) (s : Shuffle A)
      → init items iterations randomize seed max_size ≡ ok v
      → IsValid (start s v).items_to_ventilate (start s v)
  unfolding start
  start-IsValid items iterations randomize seed max_size v s e =
      let (total, left, current, count, processed, log, _) =
        init-eq items iterations randomize seed max_size v e in
      record {
        same_items = refl;
        done = 0;
        handed_out = unfold passes in rw (log, current);
        in_range = omega arith;
        left = rw (total, left) (LeftOver-zero iterations);
        counted = rw log count;
        reported = omega arith;
        ahead = omega arith;
        at_end = λ _. current;
        room = tt;
      }

  start-iterations :
      (s : Shuffle A) (v : ConcurrentVentilator A) → (start s v).iterations ≡ v.iterations
  unfolding start
  start-iterations s v = refl

  Step-iterations : {v w : ConcurrentVentilator A} → Step v w → w.iterations ≡ v.iterations
  unfolding check processed_item stop emit
  Step-iterations (checks v e) = ground arith
  Step-iterations (emits v w e runs) = ground arith
  Step-iterations (processes v less) = refl
  Step-iterations (stops v) = refl

  Reach-iterations : {v w : ConcurrentVentilator A} → Reach v w → w.iterations ≡ v.iterations
  Reach-iterations here = refl
  Reach-iterations (next r s) = Step-iterations s ∙ Reach-iterations r

  -- From any start, whatever the consumer does in between: the items that were handed out are some
  -- whole passes over the (shuffled) list and a part of one more, in the order of the list; and
  -- never more than the size of the queue are handed out and not yet processed.
  pub handed_out_in_order :
      (items : List A) (iterations : Option ℕ) (randomize : Bool) (seed max_size : Option ℕ)
      (v w : ConcurrentVentilator A) (s : Shuffle A)
      → init items iterations randomize seed max_size ≡ ok v
      → Reach (start s v) w
      → (done : ℕ) × (w.ventilated
          ≡ passes done (start s v).items_to_ventilate
            ++ take w.current_item_to_ventilate (start s v).items_to_ventilate)
        × (length w.ventilated ≤ w.processed_items_count + w.max_ventilation_queue_size)
  handed_out_in_order items iterations randomize seed max_size v w s e r =
      let h = Reach-IsValid (start-IsValid items iterations randomize seed max_size v s e) r in
      (h.done, h.handed_out, omega (arith, h.counted, h.ahead))

  Place-returned :
      {items : List A} (w : ConcurrentVentilator A)
      → IsValid items w
      → w.thread ≡ Thread.returned
      → w.stop_requested ≡ false
      → (w.iterations_remaining ≡ some 0) ⊎ (length items ≡ 0)
  Place-returned w h back going = ground (arith, back, going, h.room)

  empty_passes :
      (items : List A) (done n i : ℕ)
      → length items ≡ 0
      → passes done items ++ take i items ≡ passes n items
  empty_passes [] done n i e = rw (passes-nil done, passes-nil n, take-nil i)
  empty_passes (x ∷ xs) done n i e = absurd (omega arith)

  all_passes :
      (items : List A) (n : ℕ) (w : ConcurrentVentilator A)
      → IsValid items w
      → w.iterations ≡ some n
      → w.thread ≡ Thread.returned
      → w.stop_requested ≡ false
      → w.ventilated ≡ passes n items
  all_passes items n w h total back going = elim (Place-returned w h back going) [
    | inl zero_left ↦
        let all : n ≡ h.done =
          LeftOver-all n h.done w.iterations w.iterations_remaining h.left total zero_left in
        h.handed_out ∙ rw (h.at_end zero_left, all) (append-nil (passes h.done items))
    | inr empty ↦ h.handed_out ∙ empty_passes items h.done n w.current_item_to_ventilate empty
  ]

  -- Once the thread has returned and nobody asked it to stop, the items that were handed out are
  -- exactly as many passes over the (shuffled) list as there are iterations, in order.
  pub every_iteration :
      (items : List A) (n : ℕ) (randomize : Bool) (seed max_size : Option ℕ)
      (v w : ConcurrentVentilator A) (s : Shuffle A)
      → init items (some n) randomize seed max_size ≡ ok v
      → Reach (start s v) w
      → w.thread ≡ Thread.returned
      → w.stop_requested ≡ false
      → w.ventilated ≡ passes n (start s v).items_to_ventilate
  every_iteration items n randomize seed max_size v w s e r back going =
      all_passes (start s v).items_to_ventilate n w
        (Reach-IsValid (start-IsValid items (some n) randomize seed max_size v s e) r)
        (Reach-iterations r
          ∙ start-iterations s v
          ∙ (init-eq items (some n) randomize seed max_size v e).0)
        back going
