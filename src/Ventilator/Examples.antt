-- ===== src/Ventilator/Examples.antt =====
-- Runs of the ventilator, and the theorems at concrete ventilators.
use petastorm.Prelude.{
  ℕ, ◌+◌, ◌≤◌, ◌≡◌, refl, true, false, some, List, [], ◌∷◌, ◌++◌, take, length, ok, arith,
}
use petastorm.Indexing.{get_item}
use petastorm.Ventilator.{
  ConcurrentVentilator, Thread, Shuffle, init, completed, start, check, emit, processed_item,
}
use petastorm.Ventilator.Steps.{Reach, checks, emits, processes, here, next}
use petastorm.Ventilator.Invariant.{IsValid, passes}
use petastorm.Ventilator.Order.{handed_out_in_order, every_iteration, start-IsValid}
use petastorm.Ventilator.Progress.{hands_out_next}

abbrev swap_two : List ℕ → List ℕ
swap_two (x ∷ y ∷ xs) = y ∷ x ∷ xs
swap_two xs = xs

abbrev swapping : Shuffle ℕ
swapping = record { rng = swap_two; np_random = swap_two }

-- One pass over two items, shuffled, with a queue of one.
abbrev fresh : ConcurrentVentilator ℕ
fresh = record {
  items_to_ventilate = 5 ∷ 6 ∷ [];
  iterations = some 1;
  iterations_remaining = some 1;
  randomize_item_order = true;
  random_seed = some 3;
  max_ventilation_queue_size = 1;
  current_item_to_ventilate = 0;
  ventilated_items_count = 0;
  processed_items_count = 0;
  stop_requested = false;
  thread = Thread.unstarted;
  ventilated = [];
}

fresh_lem : init (5 ∷ 6 ∷ []) (some 1) true (some 3) (some 1) ≡ ok fresh
unfolding init
fresh_lem = refl

abbrev started : ConcurrentVentilator ℕ
started = record fresh { items_to_ventilate = 6 ∷ 5 ∷ []; thread = Thread.checking }

started_lem : start swapping fresh ≡ started
unfolding start
started_lem = refl

-- The first item is out, and the queue is full.
abbrev one_out : ConcurrentVentilator ℕ
one_out = record started {
  current_item_to_ventilate = 1;
  ventilated_items_count = 1;
  ventilated = 6 ∷ [];
}

abbrev one_done : ConcurrentVentilator ℕ
one_done = record one_out { processed_items_count = 1 }

abbrev two_out : ConcurrentVentilator ℕ
two_out = record one_done {
  iterations_remaining = some 0;
  current_item_to_ventilate = 0;
  ventilated_items_count = 2;
  ventilated = 6 ∷ 5 ∷ [];
}

abbrev all_out : ConcurrentVentilator ℕ
all_out = record two_out { thread = Thread.returned }

full_queue : check one_out ≡ one_out
unfolding check completed
full_queue = refl

Reach-one : Reach started one_out
unfolding check completed emit get_item
Reach-one =
    next (next here (checks started refl))
      (emits (record started { thread = Thread.emitting }) one_out refl refl)

Reach-all : Reach started all_out
unfolding check completed emit get_item processed_item
Reach-all =
    next
      (next (next (next Reach-one (processes one_out (omega arith))) (checks one_done refl))
        (emits (record one_done { thread = Thread.emitting }) two_out refl refl))
      (checks two_out refl)

handed_out_in_order_example :
    (done : ℕ) × (one_out.ventilated
      ≡ passes done (start swapping fresh).items_to_ventilate
        ++ take one_out.current_item_to_ventilate (start swapping fresh).items_to_ventilate)
    × (length one_out.ventilated
        ≤ one_out.processed_items_count + one_out.max_ventilation_queue_size)
unfolding start
handed_out_in_order_example =
    handed_out_in_order (5 ∷ 6 ∷ []) (some 1) true (some 3) (some 1) fresh one_out swapping
      fresh_lem Reach-one

every_iteration_example : all_out.ventilated ≡ passes 1 (start swapping fresh).items_to_ventilate
unfolding start
every_iteration_example =
    every_iteration (5 ∷ 6 ∷ []) 1 true (some 3) (some 1) fresh all_out swapping fresh_lem Reach-all
      refl refl

started-IsValid : IsValid (6 ∷ 5 ∷ []) started
unfolding start
started-IsValid =
    start-IsValid (5 ∷ 6 ∷ []) (some 1) true (some 3) (some 1) fresh swapping fresh_lem

hands_out_next_example :
    (w : ConcurrentVentilator ℕ) × (emit (check started) ≡ ok w)
    × IsValid (6 ∷ 5 ∷ []) w
    × (length w.ventilated ≡ length started.ventilated + 1)
unfolding completed
hands_out_next_example = hands_out_next started started-IsValid refl (omega arith)
