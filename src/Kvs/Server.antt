-- ===== src/Kvs/Server.antt =====
-- src/key_value_stores/server.cc: one server thread and what it gossips. A result of `none` is an
-- exception that the thread does not catch.
pub mod Put
pub mod Gossip
pub mod Replication
pub mod Transactions
use lattice_flow.Base.{
  ℕ, ◌+◌, ◌-◌, ◌%◌, ℤ, pos, negsuc, Bool, true, false, not, ◌&&◌, Option, none, some, List, [], ◌∷◌,
  ◌++◌, ltb, leb, nat_beq, if◌then◌else◌, int_ord, filter_by, range_from,
}
use lattice_flow.Lattices.Lattice.{Lattice}
use lattice_flow.Lattices.Max.{MaxLattice, max_lattice, lt}
use lattice_flow.Lattices.Timestamp.{TimestampLattice, timestamp_lattice, timestamp, value}
use lattice_flow.Lattices.MapLattice
use lattice_flow.Lattices.MapLattice.{MapLattice, map_lattice}
use lattice_flow.Std.UnorderedMap.{UnorderedMap}
use lattice_flow.Std.UnorderedSet
use lattice_flow.Std.UnorderedSet.{UnorderedSet}
use lattice_flow.Std.Decimal.{to_string, stoi}
use lattice_flow.Std.Lexicographic.{Bytes, bytes_eq, bytes_ord}
use lattice_flow.Kvs.Message.{Key, Value, Request, Response, begin_transaction, get, put, not_set}

abbrev pub num_threads : ℕ
num_threads = 4

abbrev pub threshold : ℕ
threshold = 1

abbrev pub Timestamp : Type 0
Timestamp = MaxLattice ℤ

abbrev pub MaxStringLattice : Type 0
MaxStringLattice = MaxLattice Bytes

abbrev pub TimestampedStringLattice : Type 0
TimestampedStringLattice = TimestampLattice Timestamp MaxStringLattice

abbrev pub Database : Type 0
Database = MapLattice Bytes TimestampedStringLattice

abbrev pub timestamped : Lattice TimestampedStringLattice (Timestamp × MaxStringLattice)
timestamped = timestamp_lattice max_lattice lt max_lattice

abbrev pub database : Lattice Database (UnorderedMap Bytes TimestampedStringLattice)
database = map_lattice timestamped

-- `change_set` is a `std::set`; its order, in which a gossip is filled, is not kept.
pub record State : Type 0 where
  pub kvs : Database
  pub local_timestamp : ℕ
  pub update_counter : ℕ
  pub change_set : UnorderedSet Key
  pub thread_id : ℕ

pub record GossipData : Type 0 where
  pub db : Database
  pub num_processed : ℕ

-- The state in which `worker_routine` starts a thread.
unfoldable pub init : ℕ → State
init thread_id = record {
  kvs = MapLattice.init;
  local_timestamp = 0;
  update_counter = 0;
  change_set = [];
  thread_id = thread_id;
}

-- The loop of `send_gossip`: each changed key goes into the gossip with its value. `db.get` throws
-- on a key that the database does not hold.
unfoldable pub gossip_entries : Database → List Key → Database → Option Database
gossip_entries db [] gossip = some gossip
gossip_entries db (key ∷ rest) gossip = elim (MapLattice.get db key) [
  | none ↦ none
  | some l ↦ gossip_entries db rest (MapLattice.put timestamped key l gossip)
]

unfoldable pub send_gossip : Database → UnorderedSet Key → Option GossipData
send_gossip db change_set = elim (gossip_entries db change_set MapLattice.init) [
  | none ↦ none
  | some gossip ↦ some (record { db = gossip; num_processed = 0 })
]

-- The database after the gossip is merged in, the gossip with one more thread done, and whether the
-- thread freed it.
unfoldable pub receive_gossip : Database → GossipData → Database × GossipData × Bool
receive_gossip db gossip_data = (
  MapLattice.join timestamped db gossip_data.db,
  record gossip_data { num_processed = gossip_data.num_processed + 1 },
  nat_beq gossip_data.num_processed (num_threads - 1),
)

-- An `int64` that becomes an `int` keeps its low 32 bits.
unfoldable pub to_int : ℤ → ℤ
to_int (pos n) =
    let r = n % 4294967296 in if ltb r 2147483648 then pos r else negsuc (4294967295 - r)
to_int (negsuc n) =
    let r = n % 4294967296 in if ltb r 2147483648 then negsuc r else pos (4294967295 - r)

-- The timestamped value that a put installs.
unfoldable pub stamp : ℤ → Value → TimestampedStringLattice
stamp ts v = record { p = (record { x = to_int ts }, record { x = v }) }

-- The body of the loop over the pairs of a put.
unfoldable pub put_pair : ℤ → Key → Value → State → State
put_pair ts key v state = record state {
  change_set = UnorderedSet.insert key state.change_set;
  kvs = MapLattice.put timestamped key (stamp ts v) state.kvs;
  update_counter = state.update_counter + 1;
}

-- The loop.
unfoldable pub put_pairs : ℤ → List (Key × Value) → State → State
unfolding put_pair
put_pairs ts [] state = state
put_pairs ts ((key, v) ∷ rest) state = put_pairs ts rest (put_pair ts key v state)

abbrev pub failed : Response
failed = record { succeed = false; value = none; timestamp = none }

abbrev pub succeeded : Response
succeeded = record { succeed = true; value = none; timestamp = none }

-- The timestamp of a new transaction: the digits of the local timestamp, then those of the thread.
unfoldable pub begin_timestamp : State → Option ℕ
begin_timestamp state = stoi (to_string state.local_timestamp ++ to_string state.thread_id)

-- The switch of `process_request`.
unfoldable pub respond : Request → State → Option (State × Response)
respond begin_transaction state = elim (begin_timestamp state) [
  | none ↦ none
  | some ts ↦ some (
    record state { local_timestamp = state.local_timestamp + 1 },
    record succeeded { timestamp = some (pos ts) },
  )
]
respond (get key) state = elim (MapLattice.get state.kvs key) [
  | none ↦ some (state, failed)
  | some l ↦
      some (
        state,
        record { succeed = true; value = some (value l).x; timestamp = some (timestamp l).x },
      )
]
respond (put ts pairs) state = some (put_pairs ts pairs state, succeeded)
respond not_set state = some (state, failed)

-- The end of `process_request`: with enough updates, gossip them and forget them.
unfoldable pub flush : State → Option (State × Option GossipData)
flush state =
    if leb threshold state.update_counter && not (nat_beq num_threads 1)
    then elim (send_gossip state.kvs state.change_set) [
      | none ↦ none
      | some g ↦ some (record state { change_set = []; update_counter = 0 }, some g)
    ]
    else some (state, none)

-- The new state, the response, and the gossip that was published, if any.
unfoldable pub process_request : Request → State → Option (State × Response × Option GossipData)
process_request request state = elim (respond request state) [
  | none ↦ none
  | some (s, response) ↦ elim (flush s) [ none ↦ none | some (t, sent) ↦ some (t, response, sent) ]
]

-- The threads to which `worker_routine` subscribes a thread: all the others.
unfoldable pub subscriptions : ℕ → List ℕ
subscriptions thread_id = filter_by (λ i. not (nat_beq i thread_id)) (range_from 0 num_threads)
