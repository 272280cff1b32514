-- ===== src/ShufflingBuffer/Examples.antt =====
-- Runs of `RandomShufflingBuffer`, and the theorems at concrete buffers.
use petastorm.Prelude.{
  ℕ, ◌≡◌, refl, false, ◌||◌, none, some, List, [], ◌∷◌, ok, raise, runtime_error, value_error, leb,
  if◌then◌else◌,
}
use petastorm.Indexing.{get_item, set_item, set_slice}
use petastorm.ShufflingBuffer.Samples.{lowest, draw_low}
use petastorm.ShufflingBuffer.Random.{RandomShufflingBuffer, init, add_many, retrieve}
use petastorm.ShufflingBuffer.Random.Contents.{Holds}
use petastorm.ShufflingBuffer.Random.Errors.{retrieve_empty}
use petastorm.ShufflingBuffer.Random.Runs.{Call, Conserves, run, run-Conserves}

-- Three rows, a capacity of 4 and one extra slot.
abbrev three : RandomShufflingBuffer ℕ
three = record {
  extra_capacity = 1;
  items = some 7 ∷ some 8 ∷ some 9 ∷ none ∷ none ∷ [];
  shuffling_queue_capacity = 4;
  min_after_dequeue = 2;
  size = 3;
  done_adding = false;
}

three_added : add_many (init 4 2 1) (7 ∷ 8 ∷ 9 ∷ []) ≡ ok three
unfolding init add_many set_slice
three_added = refl

three_retrieved :
    retrieve lowest three
    ≡ ok (some 7, record three { items = some 9 ∷ some 8 ∷ none ∷ none ∷ none ∷ []; size = 2 })
unfolding retrieve get_item set_item draw_low
three_retrieved = refl

three-Holds : Holds three (7 ∷ 8 ∷ 9 ∷ [])
three-Holds = record { free = 2; array = refl; counted = refl; total = refl }

-- A buffer whose minimum is 0 says that it can be read when it is empty.
abbrev no_minimum : RandomShufflingBuffer ℕ
no_minimum = record three { items = none ∷ []; size = 0; min_after_dequeue = 0 }

nothing_to_retrieve :
    retrieve lowest no_minimum
    ≡ raise (
        if no_minimum.done_adding || leb no_minimum.min_after_dequeue 0
        then value_error
        else runtime_error)
nothing_to_retrieve = retrieve_empty no_minimum lowest refl

abbrev calls : List (Call ℕ)
calls =
    Call.add (7 ∷ 8 ∷ 9 ∷ [])
    ∷ Call.get lowest
    ∷ Call.add (1 ∷ 2 ∷ [])
    ∷ Call.end
    ∷ Call.get lowest
    ∷ []

run-Conserves_example : Conserves (run (init 4 2 1) calls)
run-Conserves_example = run-Conserves 4 2 1 calls
