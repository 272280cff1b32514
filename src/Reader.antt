-- ===== src/Reader.antt =====
-- petastorm/reader.py: `Reader`, from the list of the row groups to the ventilator, and its `reset`
-- and `__next__`. A row group is its index; the dataset's metadata are parameters.
pub mod Shards
pub mod RowGroups
pub mod Epochs
mod Examples
use Prim.Native.String.{String}
use petastorm.Prelude.{
  Error, ℕ, zero, suc, ◌+◌, ◌-◌, ◌%◌, Bool, true, false, not, ◌&&◌, ◌||◌, Option, none, some, List,
  [], ◌∷◌, ◌++◌, map, length, leb, ltb, ◌==◌, if◌then◌else◌, Result, ok, raise, raise_if,
  value_error, runtime_error, assertion_error, no_data_available_error, not_implemented_error,
  stop_iteration, ◌>>=◌, ◌>>◌,
}
use petastorm.Indexing.{get_item}
use petastorm.NGram.{range_from}
use petastorm.NGram.Keys.{mem_name}
use petastorm.Selectors.{IndexDict, RowGroupSelector, get_index_names, select_row_groups, mem}
use petastorm.Ventilator as Ventilator
use petastorm.Ventilator.{ConcurrentVentilator, Shuffle}

-- `[x for x in xs if test(x)]`
unfoldable pub filter : {A : Type 0} → (A → Bool) → List A → List A
filter test [] = []
filter test (x ∷ xs) = let rest = filter test xs in if test x then x ∷ rest else rest

is_missing : Option ℕ → Bool
is_missing none = true
is_missing (some n) = false

-- `shuffle` is `random.Random(seed).shuffle`, from the seed.
unfoldable pub shuffled : (ℕ → List ℕ → List ℕ) → Option ℕ → List ℕ → List ℕ
shuffled shuffle none indexes = indexes
shuffled shuffle (some seed) indexes = shuffle seed indexes

-- `_partition_row_groups`, for `total` row groups
unfoldable pub partition_row_groups :
    (ℕ → List ℕ → List ℕ) → ℕ → Option ℕ → Option ℕ → List ℕ → Option ℕ → Result (List ℕ)
unfolding filter shuffled
partition_row_groups shuffle total none cur_shard indexes seed = raise value_error
partition_row_groups shuffle total (some shard_count) none indexes seed = raise value_error
partition_row_groups shuffle total (some shard_count) (some cur_shard) indexes seed = do
  raise_if (shard_count == 0) value_error
  raise_if (ltb total shard_count) no_data_available_error
  ok (filter (λ index. index % shard_count == cur_shard) (shuffled shuffle seed indexes))

unfoldable pub subset : List String → List String → Bool
subset [] names = true
subset (s ∷ ss) names = mem_name s names && subset ss names

-- `_apply_row_group_selector`
unfoldable pub apply_row_group_selector :
    {K : Type 0} → IndexDict K → RowGroupSelector K → List ℕ → Result (List ℕ)
unfolding filter subset
apply_row_group_selector available selector indexes = do
  raise_if (not (subset (get_index_names selector) (map (λ e. e.0) available))) value_error
  selected ← select_row_groups selector available
  ok (filter (λ i. mem i selected) indexes)

pub record Predicate (V : Type 0) : Type 0 where
  pub get_fields : List String
  pub do_include : String × V → Bool

-- The partitions of the dataset: their names, and the values of the first one. `numpy_dtype` brings
-- a value to the type of its field in the schema. A row group has its partition keys.
pub record Dataset (V : Type 0) : Type 0 where
  pub partition_names : List String
  pub partition_keys : List V
  pub numpy_dtype : String → V → Result V
  pub row_groups : List (List (String × ℕ))

module _ {V : Type 0} (dataset : Dataset V) where
  -- The loop over the row groups.
  unfoldable pub included : Predicate V → ℕ → List (List (String × ℕ)) → Result (List ℕ)
  included predicate piece_index [] = ok []
  included predicate piece_index (keys ∷ pieces) = do
    key ← get_item keys 0
    raw ← get_item dataset.partition_keys key.1
    partition_value ← dataset.numpy_dtype key.0 raw
    rest ← included predicate (piece_index + 1) pieces
    ok (if predicate.do_include (key.0, partition_value) then piece_index ∷ rest else rest)

  -- `_apply_predicate_to_row_groups`: the indexes, and the predicate that is left to the workers
  unfoldable pub apply_predicate_to_row_groups :
      Option (Predicate V) → Result (List ℕ × Option (Predicate V))
  unfolding subset
  apply_predicate_to_row_groups none = ok (range_from 0 (length dataset.row_groups), none)
  apply_predicate_to_row_groups (some predicate) =
      if subset predicate.get_fields dataset.partition_names
        && subset dataset.partition_names predicate.get_fields
      then (do
        raise_if (not (length dataset.partition_names == 1)) assertion_error
        indexes ← included predicate 0 dataset.row_groups
        ok (indexes, none))
      else ok (range_from 0 (length dataset.row_groups), some predicate)

  unfoldable pub select :
      {K : Type 0} → IndexDict K → Option (RowGroupSelector K) → List ℕ → Result (List ℕ)
  select available none indexes = ok indexes
  select available (some selector) indexes = apply_row_group_selector available selector indexes

  -- `_filter_row_groups`
  unfoldable pub filter_row_groups :
      {K : Type 0}
      → (ℕ → List ℕ → List ℕ)
      → IndexDict K
      → Option (Predicate V)
      → Option (RowGroupSelector K)
      → Option ℕ
      → Option ℕ
      → Option ℕ
      → Result (List ℕ × Option (Predicate V))
  unfolding select is_missing
  filter_row_groups shuffle available predicate selector cur_shard shard_count seed = do
    (indexes, worker_predicate) ← apply_predicate_to_row_groups predicate
    selected ← select available selector indexes
    sharded ←
        (if is_missing cur_shard && is_missing shard_count
          then ok selected
          else partition_row_groups shuffle (length dataset.row_groups) shard_count cur_shard
              selected seed)
    ok (sharded, worker_predicate)

-- What the ventilator hands to a worker: one part of a row group.
pub record WorkItem (V : Type 0) : Type 0 where
  pub piece_index : ℕ
  pub worker_predicate : Option (Predicate V)
  pub shuffle_row_drop_partition : ℕ × ℕ

largest : ℕ → List ℕ → ℕ
largest m [] = m
largest m (n ∷ ns) = largest (if ltb m n then n else m) ns

-- `_normalize_shuffle_options`; the metadata, if there is any, are the numbers of rows.
unfoldable pub normalize_shuffle_options : ℕ → Option (List ℕ) → ℕ
unfolding largest
normalize_shuffle_options partitions none = partitions
normalize_shuffle_options partitions (some []) = partitions
normalize_shuffle_options partitions (some (n ∷ ns)) =
    let rows = largest 1 (n ∷ ns) in
    if ltb 1 partitions then (if ltb rows partitions then rows else partitions) else partitions

module _ {V : Type 0} where
  -- The two loops of `_create_ventilator`.
  unfoldable pub items_to_ventilate : List ℕ → ℕ → Option (Predicate V) → List (WorkItem V)
  items_to_ventilate [] partitions predicate = []
  items_to_ventilate (piece ∷ pieces) partitions predicate =
      map
        (λ k. record {
          piece_index = piece;
          worker_predicate = predicate;
          shuffle_row_drop_partition = (k, partitions);
        })
        (range_from 0 partitions)
      ++ items_to_ventilate pieces partitions predicate

  unfoldable pub create_ventilator :
      List ℕ
      → Bool
      → ℕ
      → Option ℕ
      → Option (Predicate V)
      → ℕ
      → Option ℕ
      → Result (ConcurrentVentilator (WorkItem V))
  create_ventilator indexes shuffle_row_groups partitions num_epochs predicate max_size seed =
      Ventilator.init (items_to_ventilate indexes partitions predicate) num_epochs
        shuffle_row_groups seed (some max_size)

pub record Reader (V : Type 0) : Type 0 where
  pub ventilator : ConcurrentVentilator (WorkItem V)
  pub last_row_consumed : Bool
  pub stopped : Bool

is_end : Error → Bool
is_end stop_iteration = true
is_end _ = false

module _ {V : Type 0} where
  -- `reset`, with the state that it leaves when it raises.
  unfoldable pub reset : Shuffle (WorkItem V) → Reader V → Reader V × Result (Unit {0})
  reset s r =
      if not r.last_row_consumed
      then (r, raise not_implemented_error)
      else elim (Ventilator.reset s r.ventilator) [
        | ok v ↦ (record r { last_row_consumed = false; ventilator = v }, ok tt)
        | raise e ↦ (record r { last_row_consumed = false }, raise e)
      ]

  -- `__next__`, from the outcome of `read_next`.
  unfoldable pub next_row : {A : Type 0} → Result A → Reader V → Reader V × Result A
  unfolding is_end
  next_row outcome r = if r.stopped then (r, raise runtime_error) else elim outcome [
    | ok row ↦ (r, ok row)
    | raise e ↦ (if is_end e then record r { last_row_consumed = true } else r, raise e)
  ]
