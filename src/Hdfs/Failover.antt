-- ===== src/Hdfs/Failover.antt =====
-- `HdfsConnector._try_next_namenode`, `HAHdfsClient` and `namenode_failover`. The outcome of an attempt
-- to connect is `connect clock host`, where `clock` counts the attempts; that of the call itself is
-- `call` at the number of the invocation. An ArrowIOError is `io_error`.
use Prim.Native.String as Str
use Prim.Native.String.{String}
use petastorm.Prelude.{
  ℕ, zero, suc, ◌+◌, ◌-◌, ◌%◌, Bool, true, false, Option, none, some, List, length, if◌then◌else◌,
  Result, ok, raise, Error, io_error, connect_error, max_failovers_exceeded,
}
use petastorm.Indexing.{get_item}

-- `index_of_nn + i` for a positive `i`; the index is -1 (`none`) before the first connection.
unfoldable pub offset : Option ℕ → ℕ → ℕ
offset none i = i - 1
offset (some index) i = index + i

-- `host or 'default'`
unfoldable pub or_default : String → String
or_default Str.[] = "default"
or_default (Str.◌∷◌ c s) = Str.◌∷◌ c s

is_io_error : Error → Bool
is_io_error io_error = true
is_io_error _ = false

module _ {H : Type 0} (connect : ℕ → String → Result H) (list_of_namenodes : List String) where
  -- The loop from `i` on, `rounds` times, and the clock after it.
  unfoldable pub try_loop : ℕ → Option ℕ → ℕ → ℕ → Result (ℕ × H) × ℕ
  unfolding is_io_error
  try_loop zero index i clock = (raise connect_error, clock)
  try_loop (suc rounds) index i clock =
      let idx = offset index i % length list_of_namenodes in
      let later = try_loop rounds index (i + 1) (clock + 1) in
      elim (get_item list_of_namenodes idx) [
        | raise e ↦ (raise e, clock)
        | ok host ↦ elim (connect clock (or_default host)) [
          | ok hdfs ↦ (ok (idx, hdfs), clock + 1)
          | raise e ↦ if is_io_error e then later else (raise e, clock + 1)
        ]
      ]

  unfoldable pub try_next_namenode : Option ℕ → ℕ → Result (ℕ × H) × ℕ
  try_next_namenode index clock = try_loop (length list_of_namenodes) index 1 clock

-- The client: its last namenode and connection, and the attempts to connect so far.
pub record HaHdfsClient (H : Type 0) : Type 0 where
  pub index_of_nn : Option ℕ
  pub hdfs : H
  pub clock : ℕ

abbrev max_failover_attempts : ℕ
max_failover_attempts = 3

-- `_do_connect`. Where it raises, the client stays as it was.
unfoldable pub do_connect :
    {H : Type 0} → (ℕ → String → Result H) → List String → HaHdfsClient H → Result (HaHdfsClient H)
do_connect connect list_of_namenodes c =
    let (outcome, clock) = try_next_namenode connect list_of_namenodes c.index_of_nn c.clock in
    elim outcome [
      | ok (idx, hdfs) ↦ ok (record { index_of_nn = some idx; hdfs = hdfs; clock = clock })
      | raise e ↦ raise e
    ]

module _ {H A : Type 0} (connect : ℕ → String → Result H) (list_of_namenodes : List String)
    (call : ℕ → H → Result A) where
  -- The loop of `__call__`: each round adds one failure, so that as many rounds are left as failures
  -- are still allowed. The invocations are numbered from `k` on.
  unfoldable pub call_loop : ℕ → ℕ → HaHdfsClient H → Result A × HaHdfsClient H
  unfolding is_io_error
  call_loop zero k c = (raise max_failovers_exceeded, c)
  call_loop (suc rounds) k c = elim (call k c.hdfs) [
    | ok a ↦ (ok a, c)
    | raise e ↦
        if is_io_error e
        then elim (do_connect connect list_of_namenodes c) [
          | ok c' ↦ call_loop rounds (k + 1) c'
          | raise e' ↦ (raise e', c)
        ]
        else (raise e, c)
  ]

  unfoldable pub failover_call : HaHdfsClient H → Result A × HaHdfsClient H
  failover_call c = call_loop (max_failover_attempts + 1) 0 c
