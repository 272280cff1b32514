-- ===== src/Hdfs/Examples.antt =====
-- A cluster of two namenodes.
use Prim.Native.String.{String}
use petastorm.Prelude.{
  ℕ, zero, suc, ◌+◌, ◌<◌, ◌≡◌, refl, none, some, List, [], ◌∷◌, ltb, if◌then◌else◌, Result, ok,
  raise, io_error, max_failovers_exceeded, arith,
}
use petastorm.Indexing.{get_item}
use petastorm.NGram.Keys.{same_name}
use petastorm.Hdfs.Resolver.{
  Configuration, get, get_set, split, rpc_address, resolve_hdfs_name_service, addresses,
}
use petastorm.Hdfs.Failover.{
  HaHdfsClient, offset, or_default, try_loop, try_next_namenode, do_connect, failover_call,
}
use petastorm.Hdfs.Attempts.{
  attempt, none_yet, one_more, failover_call-recovers, failover_call-gives_up,
}

abbrev site : Configuration
site =
    ("dfs.ha.namenodes.ns", "a,b")
    ∷ ("dfs.namenode.rpc-address.ns.a", "host1:8020")
    ∷ ("dfs.namenode.rpc-address.ns.b", "host2:8020")
    ∷ []

site_resolved : resolve_hdfs_name_service site "ns" ≡ ok (some ("host1:8020" ∷ "host2:8020" ∷ []))
unfolding resolve_hdfs_name_service get_set get split addresses rpc_address
site_resolved = refl

abbrev nodes : List String
nodes = "host1:8020" ∷ "host2:8020" ∷ []

-- The first namenode is on standby, and a connection is the name of its host.
abbrev standby : ℕ → String → Result String
standby clock host = if same_name host "host1:8020" then raise io_error else ok host

abbrev down : ℕ → String → Result String
down clock host = raise io_error

both_down : (k : ℕ) → k < 2 → attempt down nodes none (1 + k) (5 + k) ≡ raise io_error
unfolding offset get_item
both_down zero less = refl
both_down (suc zero) less = refl
both_down (suc (suc k)) less = absurd (omega arith)

-- Every namenode accepts connections, and the calls fail until the given one.
abbrev open_ : ℕ → String → Result String
open_ clock host = ok host

abbrev works_from : ℕ → ℕ → String → Result ℕ
works_from n k host = if ltb k n then raise io_error else ok 7

abbrev client : ℕ → ℕ → String → HaHdfsClient String
client index clock host = record { index_of_nn = some index; hdfs = host; clock = clock }

to_second :
    (k : ℕ) → do_connect open_ nodes (client 0 k "host1:8020") ≡ ok (client 1 (k + 1) "host2:8020")
unfolding do_connect try_next_namenode try_loop offset get_item or_default
to_second k = refl

to_first :
    (k : ℕ) → do_connect open_ nodes (client 1 k "host2:8020") ≡ ok (client 0 (k + 1) "host1:8020")
unfolding do_connect try_next_namenode try_loop offset get_item or_default
to_first k = refl

failover_call-recovers_example :
    failover_call open_ nodes (works_from 2) (client 0 1 "host1:8020")
    ≡ (ok 7, client 0 3 "host1:8020")
failover_call-recovers_example =
    failover_call-recovers open_ nodes (works_from 2) 2 (client 0 1 "host1:8020")
      (client 0 3 "host1:8020") 7
      (one_more 1 0 _ (client 1 2 "host2:8020") _ refl (to_second 1)
        (one_more 0 1 _ (client 0 3 "host1:8020") _ refl (to_first 2) (none_yet 2 _)))
      (omega arith) refl

failover_call-gives_up_example :
    failover_call open_ nodes (works_from 9) (client 0 1 "host1:8020")
    ≡ (raise max_failovers_exceeded, client 0 5 "host1:8020")
failover_call-gives_up_example =
    failover_call-gives_up open_ nodes (works_from 9) (client 0 1 "host1:8020")
      (client 0 5 "host1:8020")
      (one_more 3 0 _ (client 1 2 "host2:8020") _ refl (to_second 1) (
        one_more 2 1 _ (client 0 3 "host1:8020") _ refl (to_first 2) (
          one_more 1 2 _ (client 1 4 "host2:8020") _ refl (to_second 3)
            (one_more 0 3 _ (client 0 5 "host1:8020") _ refl (to_first 4) (none_yet 4 _)))))
