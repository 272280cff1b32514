-- ===== src/Ventilator/Invariant.antt =====
-- The invariant of the ventilator: which items were handed out, and the room in the queue.
use petastorm.Prelude.{
  ℕ, zero, suc, ◌+◌, ◌-◌, ◌≤◌, ◌<◌, ◌≡◌, ◌≢◌, refl, Bool, true, false, Option, none, some, List, [],
  ◌∷◌, ◌++◌, length, take, arith, inl, inr, ◌⊎◌, Bool-cases, leb,
}
use petastorm.Ventilator.{
  ConcurrentVentilator, Thread, check, processed_item, stop, completed, one_less, is_empty,
}

-- `n` passes over a list.
unfoldable pub passes {ℓ} : {A : Type ℓ} → ℕ → List A → List A
passes zero xs = []
passes (suc n) xs = passes n xs ++ xs

-- The iterations that are left, after `done` passes of `total`.
abbrev pub LeftOver : Option ℕ → ℕ → Option ℕ → Type 0
LeftOver none done none = Unit
LeftOver none done (some left) = ⊥
LeftOver (some total) done none = ⊥
LeftOver (some total) done (some left) = total ≡ done + left

-- What is known by the thread's place: in the body of the loop there is room in the queue, an
-- iteration left and an item to hand out; the thread has returned for one of three reasons.
abbrev pub Place : Thread → ℕ → ℕ → Option ℕ → ℕ → Bool → Type 0
Place Thread.emitting count bound left size stopped = (count < bound) × (left ≢ some 0) × (0 < size)
Place Thread.unstarted count bound left size stopped = Unit
Place Thread.checking count bound left size stopped = Unit
Place Thread.returned count bound left size stopped =
    (stopped ≡ true) ⊎ (left ≡ some 0) ⊎ (size ≡ 0)

-- More room is still room.
Place-mono :
    (t : Thread) (count bound bound' : ℕ) (left : Option ℕ) (size : ℕ) (stopped : Bool)
    → bound ≤ bound'
    → Place t count bound left size stopped
    → Place t count bound' left size stopped
Place-mono Thread.emitting count bound bound' left size stopped le h = (omega arith, h.1, h.2)
Place-mono Thread.unstarted count bound bound' left size stopped le h = tt
Place-mono Thread.checking count bound bound' left size stopped le h = tt
Place-mono Thread.returned count bound bound' left size stopped le h = h

-- A request to stop moves nothing.
Place-stop :
    (t : Thread) (count bound : ℕ) (left : Option ℕ) (size : ℕ) (stopped : Bool)
    → Place t count bound left size stopped
    → Place t count bound left size true
Place-stop Thread.emitting count bound left size stopped h = h
Place-stop Thread.unstarted count bound left size stopped h = tt
Place-stop Thread.checking count bound left size stopped h = tt
Place-stop Thread.returned count bound left size stopped h = inl refl

pub LeftOver-less :
    (total : Option ℕ) (done : ℕ) (left : Option ℕ)
    → LeftOver total done left
    → left ≢ some 0
    → LeftOver total (suc done) (one_less left)
unfolding one_less
LeftOver-less none done none h ne = tt
LeftOver-less none done (some left) h ne = h
LeftOver-less (some total) done none h ne = h
LeftOver-less (some total) done (some zero) h ne = absurd (ne refl)
LeftOver-less (some total) done (some (suc left)) h ne = omega arith

module _ {A : Type 0} where
  pub record IsValid (items : List A) (v : ConcurrentVentilator A) : Type 0 where
    pub same_items : v.items_to_ventilate ≡ items
    pub done : ℕ
    pub handed_out : v.ventilated ≡ passes done items ++ take v.current_item_to_ventilate items
    pub in_range : v.current_item_to_ventilate ≤ length items - 1
    pub left : LeftOver v.iterations done v.iterations_remaining
    pub counted : v.ventilated_items_count ≡ length v.ventilated
    pub reported : v.processed_items_count ≤ v.ventilated_items_count
    pub ahead : v.ventilated_items_count ≤ v.processed_items_count + v.max_ventilation_queue_size
    pub at_end : v.iterations_remaining ≡ some 0 → v.current_item_to_ventilate ≡ 0
    pub room :
        Place v.thread v.ventilated_items_count
          (v.processed_items_count + v.max_ventilation_queue_size)
          v.iterations_remaining
          (length items)
          v.stop_requested

  is_empty-pos : (items : List A) → is_empty items ≡ false → 0 < length items
  unfolding is_empty
  is_empty-pos [] h = cc
  is_empty-pos (x ∷ xs) h = omega arith

  -- Only the thread's place differs.
  move-IsValid :
      {items : List A} {v : ConcurrentVentilator A} (t : Thread)
      → IsValid items v
      → Place t v.ventilated_items_count
          (v.processed_items_count + v.max_ventilation_queue_size)
          v.iterations_remaining
          (length items)
          v.stop_requested
      → IsValid items (record v { thread = t })
  move-IsValid t h room = record {
    same_items = h.same_items;
    done = h.done;
    handed_out = h.handed_out;
    in_range = h.in_range;
    left = h.left;
    counted = h.counted;
    reported = h.reported;
    ahead = h.ahead;
    at_end = h.at_end;
    room = room;
  }

  completed_no :
      (v : ConcurrentVentilator A)
      → completed v ≡ false
      → (v.iterations_remaining ≢ some 0) × (0 < length v.items_to_ventilate)
  unfolding completed is_empty
  completed_no v h = (λ e. ground arith, is_empty-pos v.items_to_ventilate (ground arith))

  is_empty-zero : (items : List A) → is_empty items ≡ true → length items ≡ 0
  unfolding is_empty
  is_empty-zero [] h = refl
  is_empty-zero (x ∷ xs) h = cc

  completed_yes :
      (items : List A) (v : ConcurrentVentilator A)
      → v.items_to_ventilate ≡ items
      → completed v ≡ true
      → (v.stop_requested ≡ true) ⊎ (v.iterations_remaining ≡ some 0) ⊎ (length items ≡ 0)
  unfolding completed
  completed_yes items v e h = ground (arith, is_empty-zero v.items_to_ventilate)

  pub check-IsValid :
      {items : List A} {v : ConcurrentVentilator A} → IsValid items v → IsValid items (check v)
  unfolding check
  check-IsValid {items} {v} h = elim (Bool-cases (completed v)) [
    | inl over ↦ rw over (move-IsValid Thread.returned h (completed_yes items v h.same_items over))
    | inr going ↦
        let (some_left, some_items) = completed_no v going in
        elim (Bool-cases
          (leb (v.processed_items_count + v.max_ventilation_queue_size) v.ventilated_items_count)) [
            | inl full ↦ rw (going, full) h
            | inr room ↦
                rw (going, room)
                  (move-IsValid Thread.emitting h
                    (ground arith, some_left, rw h.same_items at some_items))
          ]
  ]

  pub processed_item-IsValid :
      {items : List A} {v : ConcurrentVentilator A}
      → v.processed_items_count < v.ventilated_items_count
      → IsValid items v
      → IsValid items (processed_item v)
  unfolding processed_item
  processed_item-IsValid {items} {v} more h = record {
    same_items = h.same_items;
    done = h.done;
    handed_out = h.handed_out;
    in_range = h.in_range;
    left = h.left;
    counted = h.counted;
    reported = omega arith;
    ahead = omega (arith, h.ahead);
    at_end = h.at_end;
    room = Place-mono v.thread _ _ _ _ _ _ (omega arith) h.room;
  }

  pub stop-IsValid :
      {items : List A} {v : ConcurrentVentilator A} → IsValid items v → IsValid items (stop v)
  unfolding stop
  stop-IsValid {items} {v} h = record {
    same_items = h.same_items;
    done = h.done;
    handed_out = h.handed_out;
    in_range = h.in_range;
    left = h.left;
    counted = h.counted;
    reported = h.reported;
    ahead = h.ahead;
    at_end = h.at_end;
    room = Place-stop v.thread _ _ _ _ _ h.room;
  }
