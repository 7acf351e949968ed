-- ===== src/Kvs/Server/Transactions.antt =====
-- What a client of a server thread sees: every request is answered, transactions get timestamps of
-- their own, and a read finds what was written.
use lattice_flow.Base.{
  ℕ, ◌+◌, ◌*◌, ◌<◌, ◌≤◌, ◌≡◌, refl, ◌∙◌, ap, ℤ, pos, true, Option, none, some, [], ◌∷◌, arith,
  Option-cases, inl, inr, ltb, if◌then◌else◌,
}
use lattice_flow.Lattices.MapLattice
use lattice_flow.Std.Decimal.{int_max, stoi-to_string_digit}
use lattice_flow.Std.Lexicographic.{bytes_eq}
use lattice_flow.Kvs.Message.{Key, Value, Request, Response, begin_transaction, get, put, not_set}
use lattice_flow.Kvs.Server.{
  State, Database, GossipData, TimestampedStringLattice, to_int, put_pairs, respond, flush,
  process_request, succeeded, failed, begin_timestamp, num_threads,
}
use lattice_flow.Kvs.Server.Put.{last_write, register, put_pairs_rest, put_pair-last_write}
use lattice_flow.Kvs.Server.Gossip.{IsFlushed, process_request-put, process_request_lem}

begin_timestamp_lem :
    (state : State)
    → state.thread_id < num_threads
    → begin_timestamp state ≡ (
        if ltb int_max (state.local_timestamp * 10 + state.thread_id)
        then none
        else some (state.local_timestamp * 10 + state.thread_id))
unfolding begin_timestamp
begin_timestamp_lem state h =
    stoi-to_string_digit state.local_timestamp state.thread_id (omega arith)

flush-idle : (state : State) → IsFlushed state → flush state ≡ some (state, none)
unfolding flush
flush-idle state f = ground arith

respond-begin :
    (state : State)
    → state.thread_id < num_threads
    → state.local_timestamp * 10 + state.thread_id ≤ int_max
    → respond begin_transaction state
      ≡ some (
        record state { local_timestamp = state.local_timestamp + 1 },
        record succeeded { timestamp = some (pos (state.local_timestamp * 10 + state.thread_id)) },
      )
unfolding respond
respond-begin state h k = ground (arith, begin_timestamp_lem state h)

-- A thread with all its updates gossiped answers a request to begin a transaction with ten times its
-- local timestamp plus its thread number, as long as that is an `int`. It then counts its local
-- timestamp up, and keeps all else.
pub process_request-begin :
    (state : State)
    → IsFlushed state
    → state.thread_id < num_threads
    → state.local_timestamp * 10 + state.thread_id ≤ int_max
    → process_request begin_transaction state
      ≡ some (
        record state { local_timestamp = state.local_timestamp + 1 },
        record succeeded { timestamp = some (pos (state.local_timestamp * 10 + state.thread_id)) },
        none,
      )
process_request-begin state f h k =
    process_request_lem begin_transaction state _ _ _ none (respond-begin state h k) (
      flush-idle (record state { local_timestamp = state.local_timestamp + 1 })
        (record { no_changes = f.no_changes; no_updates = f.no_updates }))

-- Two threads of a server never give the same timestamp to a transaction, and one thread never gives
-- it at two values of its local timestamp.
pub begin_timestamp_unique :
    (s t : State) (ts : ℕ)
    → s.thread_id < num_threads
    → t.thread_id < num_threads
    → begin_timestamp s ≡ some ts
    → begin_timestamp t ≡ some ts
    → (s.thread_id ≡ t.thread_id) × (s.local_timestamp ≡ t.local_timestamp)
begin_timestamp_unique s t ts hs ht es et =
    unique s t ts hs ht (value_of s ts hs es) (value_of t ts ht et)
  where
    value_of :
        (s : State) (ts : ℕ)
        → s.thread_id < num_threads
        → begin_timestamp s ≡ some ts
        → ts ≡ s.local_timestamp * 10 + s.thread_id
    value_of s ts h e = ground (arith, begin_timestamp_lem s h)

    unique :
        (s t : State) (ts : ℕ)
        → s.thread_id < num_threads
        → t.thread_id < num_threads
        → ts ≡ s.local_timestamp * 10 + s.thread_id
        → ts ≡ t.local_timestamp * 10 + t.thread_id
        → (s.thread_id ≡ t.thread_id) × (s.local_timestamp ≡ t.local_timestamp)
    unique s t ts hs ht es et = omega arith

-- The answer to a read.
abbrev pub read_response : Option TimestampedStringLattice → Response
read_response none = failed
read_response (some l) = record { succeed = true; value = some l.p.1.x; timestamp = some l.p.0.x }

respond-get :
    (k : Key) (state : State)
    → respond (get k) state ≡ some (state, read_response (MapLattice.get state.kvs k))
unfolding respond
respond-get k state = elim (Option-cases (MapLattice.get state.kvs k)) [
  | inl absent ↦ rw (absent, respond)
  | inr (l, there) ↦ rw (there, respond)
]

process_request-get :
    (k : Key) (state : State)
    → IsFlushed state
    → process_request (get k) state ≡ some (state, read_response (MapLattice.get state.kvs k), none)
process_request-get k state f =
    process_request_lem (get k) state state state _ none (respond-get k state) (flush-idle state f)

respond-put_nil : (ts : ℤ) (state : State) → respond (put ts []) state ≡ some (state, succeeded)
unfolding respond put_pairs
respond-put_nil ts state = refl

respond-not_set : (state : State) → respond not_set state ≡ some (state, failed)
unfolding respond
respond-not_set state = refl

-- A thread with all its updates gossiped answers every request, as long as its next transaction
-- timestamp is an `int`: no exception ends it. Afterwards it has gossiped all its updates again, and
-- it is still the same thread.
pub process_request_total :
    (request : Request) (state : State)
    → IsFlushed state
    → state.thread_id < num_threads
    → state.local_timestamp * 10 + state.thread_id ≤ int_max
    → (t : State) × (response : Response) × (sent : Option GossipData) × (process_request request
          state
        ≡ some (t, response, sent))
      × IsFlushed t
      × (t.thread_id ≡ state.thread_id)
process_request_total begin_transaction state f h k = (
  record state { local_timestamp = state.local_timestamp + 1 },
  record succeeded { timestamp = some (pos (state.local_timestamp * 10 + state.thread_id)) },
  none,
  process_request-begin state f h k,
  record { no_changes = f.no_changes; no_updates = f.no_updates },
  refl,
)
process_request_total (get key) state f h k = (
  state,
  read_response (MapLattice.get state.kvs key),
  none,
  process_request-get key state f,
  f,
  refl,
)
process_request_total (put ts []) state f h k = (
  state,
  succeeded,
  none,
  process_request_lem (put ts []) state state state succeeded none (respond-put_nil ts state)
      (flush-idle state f),
  f,
  refl,
)
process_request_total (put ts (p ∷ ps)) state f h k =
    let (t, g, run, sent) = process_request-put ts p ps state f in
    (t, succeeded, some g, run, sent.flushed, sent.thread ∙ (put_pairs_rest ts (p ∷ ps) state).2)
process_request_total not_set state f h k = (
  state,
  failed,
  none,
  process_request_lem not_set state state state failed none (respond-not_set state)
      (flush-idle state f),
  f,
  refl,
)

pub put-get :
    (ts : ℤ) (k : Key) (v : Value) (state : State)
    → IsFlushed state
    → (t : State) × (g : GossipData) × (process_request (put ts ((k, v) ∷ [])) state
        ≡ some (t, succeeded, some g))
      × (process_request (get k) t
          ≡ some (
            t,
            read_response (some (register (last_write (to_int ts) v (MapLattice.get state.kvs k)))),
            none,
          ))
unfolding put_pairs
put-get ts k v state f =
    let (t, g, run, sent) = process_request-put ts (k, v) [] state f in
    (
      t,
      g,
      run,
      process_request-get k t sent.flushed
          ∙ ground (
            arith,
            ap (λ (m : Database). MapLattice.get m k) sent.stored,
            put_pair-last_write ts k v state k,
            bytes_eq.beq_iff k k,
          ),
    )
