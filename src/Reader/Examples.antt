-- ===== src/Reader/Examples.antt =====
-- Readers of small datasets.
use mathlib.Core.List.{Perm}
use mathlib.Core.List.Perm
use petastorm.Prelude.{
  ℕ, ◌%◌, ◌≡◌, refl, true, false, ◌&&◌, none, some, List, [], ◌∷◌, map, concat, ltb, ◌==◌, ok,
  arith,
}
use petastorm.Indexing.{get_item}
use petastorm.NGram.{range_from}
use petastorm.NGram.Keys.{mem_name}
use petastorm.Selectors.{
  IndexDict, RowGroupSelector, mem, get_index_names, select_row_groups, select_single, get_indexer,
  any_value, union,
}
use petastorm.Ventilator.{
  ConcurrentVentilator, Thread, Shuffle, init, start, check, emit, completed,
}
use petastorm.Ventilator.Steps.{Reach, checks, emits, here, next}
use petastorm.Ventilator.Invariant.{passes}
use petastorm.Reader.{
  Dataset, WorkItem, Reader, create_ventilator, items_to_ventilate, partition_row_groups,
  filter_row_groups, subset,
}
use petastorm.Reader.Shards.{partition_row_groups-Perm}
use petastorm.Reader.RowGroups.{filter_row_groups-mem}
use petastorm.Reader.Epochs.{part_of, parts, every_epoch}

-- A shuffle that moves nothing.
abbrev still : ℕ → List ℕ → List ℕ
still seed xs = xs

partition_row_groups-Perm_example :
    (shards : ℕ → List ℕ) × ((k : ℕ)
      → partition_row_groups still 4 (some 2) (some k) (0 ∷ 1 ∷ 3 ∷ []) (some 7) ≡ ok (shards k))
    × Perm (concat (map shards (range_from 0 2))) (0 ∷ 1 ∷ 3 ∷ [])
partition_row_groups-Perm_example =
    partition_row_groups-Perm still 4 2 (0 ∷ 1 ∷ 3 ∷ []) (some 7) (λ s xs. Perm.refl xs)
      (omega arith) (omega arith)

-- Four row groups, of which an index finds three.
abbrev dataset : Dataset ℕ
dataset = record {
  partition_names = [];
  partition_keys = [];
  numpy_dtype = λ name v. ok v;
  row_groups = [] ∷ [] ∷ [] ∷ [] ∷ [];
}

abbrev colors : IndexDict ℕ
colors = ("color", λ v. 0 ∷ 1 ∷ 3 ∷ []) ∷ []

abbrev reds : RowGroupSelector ℕ
reds = RowGroupSelector.single (record { index_name = "color"; values_to_select = 0 ∷ [] })

reds_known : subset (get_index_names reds) (map (λ e. e.0) colors) ≡ true
unfolding subset get_index_names mem_name
reds_known = refl

reds_found : select_row_groups reds colors ≡ ok (0 ∷ 1 ∷ 3 ∷ [])
unfolding select_row_groups select_single get_indexer any_value union mem
reds_found = refl

filter_row_groups-mem_example :
    (out : List ℕ) × (filter_row_groups dataset still colors none (some reds) (some 1) (some 2) none
      ≡ ok (out, none))
    × ((i : ℕ) → mem i out ≡ (ltb i 4 && mem i (0 ∷ 1 ∷ 3 ∷ [])) && (i % 2 == 1))
filter_row_groups-mem_example =
    filter_row_groups-mem dataset colors reds (0 ∷ 1 ∷ 3 ∷ []) reds_known reds_found still 2 1 none
      (λ i s ys. refl) (omega arith) (omega arith)

-- One row group in two parts, for one epoch.
abbrev part : ℕ → WorkItem ℕ
part k = record { piece_index = 3; worker_predicate = none; shuffle_row_drop_partition = (k, 2) }

abbrev fresh : ConcurrentVentilator (WorkItem ℕ)
fresh = record {
  items_to_ventilate = part 0 ∷ part 1 ∷ [];
  iterations = some 1;
  iterations_remaining = some 1;
  randomize_item_order = false;
  random_seed = none;
  max_ventilation_queue_size = 4;
  current_item_to_ventilate = 0;
  ventilated_items_count = 0;
  processed_items_count = 0;
  stop_requested = false;
  thread = Thread.unstarted;
  ventilated = [];
}

fresh_lem : create_ventilator (3 ∷ []) false 2 (some 1) none 4 none ≡ ok fresh
unfolding create_ventilator items_to_ventilate range_from init
fresh_lem = refl

abbrev unshuffled : Shuffle (WorkItem ℕ)
unshuffled = record { rng = λ xs. xs; np_random = λ xs. xs }

abbrev one_out : ConcurrentVentilator (WorkItem ℕ)
one_out = record fresh {
  thread = Thread.checking;
  current_item_to_ventilate = 1;
  ventilated_items_count = 1;
  ventilated = part 0 ∷ [];
}

abbrev two_out : ConcurrentVentilator (WorkItem ℕ)
two_out = record one_out {
  iterations_remaining = some 0;
  current_item_to_ventilate = 0;
  ventilated_items_count = 2;
  ventilated = part 0 ∷ part 1 ∷ [];
}

abbrev all_out : ConcurrentVentilator (WorkItem ℕ)
all_out = record two_out { thread = Thread.returned }

Reach-end : Reach (start unshuffled fresh) all_out
unfolding start check completed emit get_item
Reach-end =
    next
      (next
        (next
          (next (next here (checks (start unshuffled fresh) refl))
            (emits (record fresh { thread = Thread.emitting }) one_out refl refl))
          (checks one_out refl))
        (emits (record one_out { thread = Thread.emitting }) two_out refl refl))
      (checks two_out refl)

every_epoch_example : map part_of all_out.ventilated ≡ passes 1 (parts (3 ∷ []) 2)
every_epoch_example =
    every_epoch (3 ∷ []) 2 1 4 none none unshuffled fresh all_out fresh_lem Reach-end refl refl

abbrev finished : Reader ℕ
finished = record { ventilator = all_out; last_row_consumed = true; stopped = false }
