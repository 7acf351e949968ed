-- ===== src/Tests/KvsRuns.antt =====
-- Runs of a server thread: src/key_value_stores/server.cc.
use lattice_flow.Base.{
  ◌≡◌, refl, true, false, arith, pos, negsuc, List, [], ◌∷◌, Option, none, some, ◌+◌, ◌*◌, ◌<◌, ◌≤◌,
  length,
}
use lattice_flow.Lattices.Lattice.{eq}
use lattice_flow.Lattices.MapLattice
use lattice_flow.Std.Decimal.{int_max, to_string, stoi}
use lattice_flow.Std.Lexicographic.{bytes_eq}
use lattice_flow.Std.Assoc.{find}
use lattice_flow.Std.UnorderedMap.{empty}
use lattice_flow.Std.UnorderedSet.{contains}
use lattice_flow.Kvs.Message.{Key, Value, Response, begin_transaction, get, put}
use lattice_flow.Kvs.Server.{
  State, Database, GossipData, database, init, put_pair, put_pairs, process_request, receive_gossip,
  succeeded, to_int, begin_timestamp, subscriptions,
}
use lattice_flow.Kvs.Server.Put.{database-IsLattice, put_pair-last_write, last_write, register}
use lattice_flow.Kvs.Server.Gossip.{IsFlushed, Sent, process_request-put}
use lattice_flow.Kvs.Server.Replication.{put-replicates, deliver, gossip_never_freed, subscribers}
use lattice_flow.Kvs.Server.Transactions.{
  process_request_total, begin_timestamp_unique, put-get, read_response,
}

abbrev k1 : Key
k1 = 97 ∷ []

abbrev k2 : Key
k2 = 98 ∷ []

abbrev v1 : Value
v1 = 120 ∷ 49 ∷ []

-- Two threads before their first request.
abbrev idle : State
idle = init 2

idle-IsFlushed : IsFlushed idle
unfolding init
idle-IsFlushed = record { no_changes = refl; no_updates = refl }

-- A thread that has processed a put.
abbrev written :
    (t : State) × (g : GossipData) × (process_request (put (pos 7) ((k1, v1) ∷ [])) idle
      ≡ some (t, succeeded, some g))
    × Sent ((k1, v1) ∷ []) (put_pairs (pos 7) ((k1, v1) ∷ []) idle) t g
written = process_request-put (pos 7) (k1, v1) [] idle idle-IsFlushed

idle_equal : eq database idle.kvs MapLattice.init ≡ true
unfolding init
idle_equal = database-IsLattice.eq_refl MapLattice.init

put-replicates_example :
    eq database (receive_gossip MapLattice.init written.1).0 written.0.kvs ≡ true
put-replicates_example =
    put-replicates (pos 7) (k1, v1) [] idle written.0 succeeded written.1 MapLattice.init
      idle-IsFlushed idle_equal written.2

abbrev empty_gossip : GossipData
empty_gossip = record { db = MapLattice.init; num_processed = 0 }

no_thread : 2 < 4
no_thread = omega arith

small_timestamp : 0 * 10 + 2 ≤ int_max
small_timestamp = omega arith

process_request_total_example :
    (t : State) × (response : Response) × (sent : Option GossipData) × (process_request
        begin_transaction idle
      ≡ some (t, response, sent))
    × IsFlushed t
    × (t.thread_id ≡ 2)
unfolding init
process_request_total_example =
    process_request_total begin_transaction idle idle-IsFlushed no_thread small_timestamp

process_request-put_example :
    (t : State) × (g : GossipData) × (process_request
        (put (negsuc 2) ((k1, v1) ∷ (k2, v1) ∷ []))
        idle
      ≡ some (t, succeeded, some g))
    × Sent ((k1, v1) ∷ (k2, v1) ∷ []) (put_pairs (negsuc 2) ((k1, v1) ∷ (k2, v1) ∷ []) idle) t g
process_request-put_example =
    process_request-put (negsuc 2) (k1, v1) ((k2, v1) ∷ []) idle idle-IsFlushed

-- A timestamp of 2 to the power of 32, plus 5, is narrowed to 5.
put_pair-last_write_example :
    MapLattice.get (put_pair (pos 4294967301) k1 v1 idle).kvs k1 ≡ some (register (pos 5, v1))
unfolding init to_int last_write bytes_eq MapLattice.get find MapLattice.init empty
put_pair-last_write_example = put_pair-last_write (pos 4294967301) k1 v1 idle k1

put-get_example :
    (t : State) × (g : GossipData) × (process_request (put (pos 9) ((k1, v1) ∷ [])) written.0
      ≡ some (t, succeeded, some g))
    × (process_request (get k1) t
        ≡ some (
          t,
          read_response
              (some (register (last_write (to_int (pos 9)) v1 (MapLattice.get written.0.kvs k1)))),
          none,
        ))
put-get_example = put-get (pos 9) k1 v1 written.0 written.3.flushed

-- After three transactions, thread 2 gives the timestamp 32.
abbrev busy : State
busy = record idle { local_timestamp = 3 }

begin_busy : begin_timestamp busy ≡ some 32
unfolding begin_timestamp init stoi to_string
begin_busy = refl

busy_thread : busy.thread_id < 4
unfolding init
busy_thread = omega arith

-- The same thread with something in its database.
abbrev filled : State
filled = record busy { kvs = written.0.kvs }

begin_filled : begin_timestamp filled ≡ some 32
unfolding begin_timestamp init stoi to_string
begin_filled = refl

begin_timestamp_unique_example :
    (busy.thread_id ≡ filled.thread_id) × (busy.local_timestamp ≡ filled.local_timestamp)
begin_timestamp_unique_example =
    begin_timestamp_unique busy filled 32 busy_thread busy_thread begin_busy begin_filled

abbrev replicas : List Database
replicas = MapLattice.init ∷ written.0.kvs ∷ MapLattice.init ∷ []

three_replicas : length replicas ≡ length (subscribers 0)
unfolding subscribers subscriptions contains
three_replicas = refl

gossip_never_freed_example : (deliver replicas empty_gossip).2 ≡ false
gossip_never_freed_example =
    gossip_never_freed 0 replicas empty_gossip (omega arith) three_replicas refl
