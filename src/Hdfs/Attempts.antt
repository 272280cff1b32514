-- ===== src/Hdfs/Attempts.antt =====
-- What the failover promises.
use Prim.Native.String.{String}
use native.Mathlib.Nat.{mod-lt}
use petastorm.Prelude.{
  ℕ, zero, suc, ◌+◌, ◌-◌, ◌%◌, ◌≤◌, ◌<◌, ◌≡◌, refl, ◌∙◌, Option, List, length, Result, ok, raise,
  io_error, connect_error, max_failovers_exceeded, ◌>>=◌, arith,
}
use petastorm.Indexing.{get_item, get_item_in_range}
use petastorm.Hdfs.Failover.{
  offset, or_default, try_loop, try_next_namenode, HaHdfsClient, do_connect, call_loop,
  failover_call,
}

module _ {H : Type 0} (connect : ℕ → String → Result H) (nodes : List String) where
  -- The attempt to connect to the namenode that is `i` after the last one.
  abbrev pub attempt : Option ℕ → ℕ → ℕ → Result H
  attempt index i clock = do
    host ← get_item nodes (offset index i % length nodes)
    connect clock (or_default host)

  try_loop-next :
      (rounds i clock : ℕ) (index : Option ℕ)
      → 0 < length nodes
      → attempt index i clock ≡ raise io_error
      → try_loop connect nodes (suc rounds) index i clock
        ≡ try_loop connect nodes rounds index (i + 1) (clock + 1)
  unfolding try_loop
  try_loop-next rounds i clock index some_node fails =
      let (host, found, e) =
        get_item_in_range nodes (offset index i % length nodes)
          (mod-lt (offset index i) some_node) in
      ground (arith, found)

  -- The first `j` attempts failed.
  try_loop-later :
      (j rounds i clock : ℕ) (index : Option ℕ)
      → (0 < j → 0 < length nodes)
      → j ≤ rounds
      → ((k : ℕ) → k < j → attempt index (i + k) (clock + k) ≡ raise io_error)
      → try_loop connect nodes rounds index i clock
        ≡ try_loop connect nodes (rounds - j) index (i + j) (clock + j)
  try_loop-later zero rounds i clock index some_node fits fails =
      let same : rounds - 0 ≡ rounds = omega arith in
      let first : i + 0 ≡ i = omega arith in
      let start : clock + 0 ≡ clock = omega arith in rw (same, first, start)
  try_loop-later (suc j) zero i clock index some_node fits fails = absurd (omega arith)
  try_loop-later (suc j) (suc rounds) i clock index some_node fits fails =
      let first_i : i + 0 ≡ i = omega arith in
      let first_clock : clock + 0 ≡ clock = omega arith in
      let next_i : (k : ℕ) → i + suc k ≡ i + 1 + k = λ k. omega arith in
      let next_clock : (k : ℕ) → clock + suc k ≡ clock + 1 + k = λ k. omega arith in
      let left : suc rounds - suc j ≡ rounds - j = omega arith in
      let nodes_there : 0 < length nodes = some_node (omega arith) in
      let first : attempt index i clock ≡ raise io_error =
        rw (first_i, first_clock) at (fails 0 (omega arith)) in
      let others : (k : ℕ) → k < j → attempt index (i + 1 + k) (clock + 1 + k) ≡ raise io_error =
        λ k less. rw (next_i k, next_clock k) at (fails (suc k) (omega arith)) in
      rw (left, next_i j, next_clock j)
        (try_loop-next rounds i clock index nodes_there first
          ∙ try_loop-later j rounds (i + 1) (clock + 1) index (λ pos. nodes_there) (omega arith)
              others)

  -- If no namenode answers, each is tried once and an HdfsConnectError is raised.
  pub try_next_namenode-none :
      (clock : ℕ) (index : Option ℕ)
      → ((k : ℕ) → k < length nodes → attempt index (1 + k) (clock + k) ≡ raise io_error)
      → try_next_namenode connect nodes index clock ≡ (raise connect_error, clock + length nodes)
  unfolding try_next_namenode try_loop
  try_next_namenode-none clock index fails =
      let n = length nodes in
      let over : n - n ≡ 0 = omega arith in
      try_loop-later n n 1 clock index (λ pos. pos) (omega arith) fails ∙ rw over refl

module _ {H A : Type 0} (connect : ℕ → String → Result H) (nodes : List String)
    (call : ℕ → H → Result A) where
  -- `n` calls in a row fail with an ArrowIOError, and each time the client reconnects.
  pub data Failed : ℕ → ℕ → HaHdfsClient H → HaHdfsClient H → Type 0 where
    none_yet : (k : ℕ) (c : HaHdfsClient H) → Failed 0 k c c
    one_more :
        (n k : ℕ) (c d e : HaHdfsClient H)
        → call k c.hdfs ≡ raise io_error
        → do_connect connect nodes c ≡ ok d
        → Failed n (k + 1) d e
        → Failed (suc n) k c e

  call_loop-Failed :
      {n k : ℕ} {c e : HaHdfsClient H} (rounds : ℕ)
      → Failed n k c e
      → n ≤ rounds
      → call_loop connect nodes call rounds k c
        ≡ call_loop connect nodes call (rounds - n) (k + n) e
  unfolding call_loop
  call_loop-Failed rounds (none_yet k c) fits =
      let same : rounds - 0 ≡ rounds = omega arith in
      let start : k + 0 ≡ k = omega arith in rw (same, start)
  call_loop-Failed zero (one_more n k c d e fails again rest) fits = absurd (omega arith)
  call_loop-Failed (suc rounds) (one_more n k c d e fails again rest) fits =
      let left : suc rounds - suc n ≡ rounds - n = omega arith in
      let count : k + suc n ≡ k + 1 + n = omega arith in
      let others = call_loop-Failed rounds rest (omega arith) in
      rw (left, count) (ground (arith, fails, again, others))

  -- A call that fails at most three times in a row, the client reconnecting each time, and then
  -- returns a value, returns that value, over the last connection.
  pub failover_call-recovers :
      (n : ℕ) (c e : HaHdfsClient H) (a : A)
      → Failed n 0 c e
      → n ≤ 3
      → call n e.hdfs ≡ ok a
      → failover_call connect nodes call c ≡ (ok a, e)
  unfolding failover_call call_loop
  failover_call-recovers n c e a f few works =
      let rest = call_loop-Failed 4 f (omega arith) in
      let more : 4 - n ≡ suc (3 - n) = omega arith in
      let count : 0 + n ≡ n = omega arith in rest ∙ rw (more, count) (ground (arith, works))

  -- A call that fails four times in a row is given up after the fourth reconnection, with
  -- MaxFailoversExceeded.
  pub failover_call-gives_up :
      (c e : HaHdfsClient H)
      → Failed 4 0 c e
      → failover_call connect nodes call c ≡ (raise max_failovers_exceeded, e)
  unfolding failover_call call_loop
  failover_call-gives_up c e f = call_loop-Failed 4 f (omega arith)
