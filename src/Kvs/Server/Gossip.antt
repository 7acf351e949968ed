-- ===== src/Kvs/Server/Gossip.antt =====
-- Gossip between the threads of a server: what a thread sends, and what it does to the receivers.
use lattice_flow.Base.{
  ◌<◌, ◌≡◌, refl, ap, ℤ, true, Option, none, some, List, [], ◌∷◌, arith, if◌then◌else◌, Bool-cases,
  inl, inr, int_ord,
}
use lattice_flow.Lattices.Lattice.{eq}
use lattice_flow.Lattices.MapLattice
use lattice_flow.Lattices.MapLattice.Laws.{get-put, get-join, eq_iff, oeq_sym}
use lattice_flow.Std.Assoc.{find}
use lattice_flow.Std.UnorderedMap
use lattice_flow.Std.UnorderedSet.{contains, UnorderedSet, IsDistinct}
use lattice_flow.Std.Lexicographic.{bytes_eq, bytes_ord}
use lattice_flow.Kvs.Message.{Key, Value, Request, Response, put}
use lattice_flow.Kvs.Server.{
  State, Database, GossipData, TimestampedStringLattice, timestamped, database, put_pairs, respond,
  gossip_entries, send_gossip, receive_gossip, flush, process_request, succeeded,
}
use lattice_flow.Kvs.Server.Put.{
  timestamped-IsLattice, oeq, ojoin, le-put_pairs, put_keys, put_pairs_frame, put_pairs_noted,
  Noted, put_pairs-Noted, put_pairs_rest,
}

-- Gossip of distinct keys that are all stored holds those keys with their values.
gossip_entries_lem :
    (db : Database) (ks : List Key) (acc : Database)
    → IsDistinct ks
    → ((j : Key)
        → contains j ks ≡ true
        → (v : TimestampedStringLattice) × (MapLattice.get db j ≡ some v))
    → (g : Database) × (gossip_entries db ks acc ≡ some g)
      × ((j : Key)
          → MapLattice.get g j ≡ (
              if contains j ks
              then ojoin (MapLattice.get acc j) (MapLattice.get db j)
              else MapLattice.get acc j))
unfolding gossip_entries contains
gossip_entries_lem db [] acc d stored = (acc, refl, λ j. refl)
gossip_entries_lem db (k ∷ ks) acc d stored =
    let (v, found) = stored k (ground (arith, bytes_eq.beq_iff k k)) in
    let (g, made, reads) =
      gossip_entries_lem db ks (MapLattice.put timestamped k v acc) d.1
        (λ j h. stored j (ground arith)) in
    (
      g,
      rw (found, gossip_entries) made,
      λ j. ground (arith, reads j, get-put timestamped acc k j v, bytes_eq.beq_iff k j),
    )

get-init :
    (j : Key) → MapLattice.get (MapLattice.init {K = Key} {V = TimestampedStringLattice}) j ≡ none
unfolding MapLattice.get MapLattice.init UnorderedMap.empty find
get-init j = refl

pub send_gossip_lem :
    (db : Database) (ks : UnorderedSet Key)
    → IsDistinct ks
    → ((j : Key)
        → contains j ks ≡ true
        → (v : TimestampedStringLattice) × (MapLattice.get db j ≡ some v))
    → (g : GossipData) × (send_gossip db ks ≡ some g)
      × (g.num_processed ≡ 0)
      × ((j : Key) → MapLattice.get g.db j ≡ (if contains j ks then MapLattice.get db j else none))
unfolding send_gossip
send_gossip_lem db ks d stored =
    let (g, made, reads) = gossip_entries_lem db ks MapLattice.init d stored in
    (
      record { db = g; num_processed = 0 },
      rw (made, send_gossip),
      refl,
      λ j. ground (arith, reads j, get-init j),
    )

-- Between two requests a thread has gossiped all its updates.
pub record IsFlushed (state : State) : Type 0 where
  pub no_changes : state.change_set ≡ []
  pub no_updates : state.update_counter ≡ 0

nothing-Noted : (state : State) → IsFlushed state → Noted state
unfolding contains
nothing-Noted state f j h = absurd (ground (arith, ap (contains j) f.no_changes))

flush-sent :
    (state : State) (g : GossipData)
    → 0 < state.update_counter
    → send_gossip state.kvs state.change_set ≡ some g
    → flush state ≡ some (record state { change_set = []; update_counter = 0 }, some g)
unfolding flush
flush-sent state g h e = ground arith

pub respond-put :
    (ts : ℤ) (pairs : List (Key × Value)) (state : State)
    → respond (put ts pairs) state ≡ some (put_pairs ts pairs state, succeeded)
unfolding respond
respond-put ts pairs state = refl

pub process_request_lem :
    (request : Request) (state s t : State) (response : Response) (sent : Option GossipData)
    → respond request state ≡ some (s, response)
    → flush s ≡ some (t, sent)
    → process_request request state ≡ some (t, response, sent)
unfolding process_request
process_request_lem request state s t response sent h k = ground arith

-- What a thread holds and sends when it has processed a put of at least one pair.
pub record Sent (pairs : List (Key × Value)) (s t : State) (g : GossipData) : Type 0 where
  pub flushed : IsFlushed t
  pub stored : t.kvs ≡ s.kvs
  pub thread : t.thread_id ≡ s.thread_id
  pub unprocessed : g.num_processed ≡ 0
  pub content :
      (j : Key)
      → MapLattice.get g.db j
        ≡ (if contains j (put_keys pairs) then MapLattice.get t.kvs j else none)

pub process_request-put :
    (ts : ℤ) (p : Key × Value) (ps : List (Key × Value)) (state : State)
    → IsFlushed state
    → (t : State) × (g : GossipData) × (process_request (put ts (p ∷ ps)) state
        ≡ some (t, succeeded, some g))
      × Sent (p ∷ ps) (put_pairs ts (p ∷ ps) state) t g
unfolding contains
process_request-put ts p ps state f =
    let s = put_pairs ts (p ∷ ps) state in
    let (noted, distinct) =
      put_pairs-Noted ts (p ∷ ps) state (nothing-Noted state f) (rw f.no_changes tt) in
    let (g, sent, zeroed, reads) = send_gossip_lem s.kvs s.change_set distinct noted in
    let t : State = record s { change_set = []; update_counter = 0 } in
    (
      t,
      g,
      process_request_lem (put ts (p ∷ ps)) state s t succeeded (some g)
          (respond-put ts (p ∷ ps) state)
          (flush-sent s g (omega (arith, put_pairs_rest ts (p ∷ ps) state)) sent),
      record {
        flushed = record { no_changes = refl; no_updates = refl };
        stored = refl;
        thread = refl;
        unprocessed = zeroed;
        content = λ j.
            ground
              (arith, reads j, put_pairs_noted ts (p ∷ ps) state j, ap (contains j) f.no_changes);
      },
    )

absorb_le :
    (m n r : Option TimestampedStringLattice)
    → oeq (ojoin m n) n ≡ true
    → oeq m r ≡ true
    → oeq (ojoin r n) n ≡ true
absorb_le none n none h k = h
absorb_le none n (some r) h k = cc
absorb_le (some m) none r h k = cc
absorb_le (some m) (some n) none h k = cc
absorb_le (some m) (some n) (some r) h k =
    timestamped-IsLattice.eq_trans (timestamped.join r n) (timestamped.join m n) n
      (timestamped-IsLattice.join_cong r m n n (timestamped-IsLattice.eq_sym m r k)
        (timestamped-IsLattice.eq_refl n))
      h

join_none : (o : Option TimestampedStringLattice) → ojoin o none ≡ o
join_none none = refl
join_none (some v) = refl

module _ (ts : ℤ) (ps : List (Key × Value)) (state t : State) (g : GossipData)
    (sent : Sent ps (put_pairs ts ps state) t g) (replica : Database)
    (equal : eq database state.kvs replica ≡ true) where
  stored_above :
      (j : Key)
      → oeq (ojoin (MapLattice.get state.kvs j) (MapLattice.get t.kvs j)) (MapLattice.get t.kvs j)
        ≡ true
  stored_above j =
      rw (sent.stored, ← get-join timestamped state.kvs (put_pairs ts ps state).kvs j)
        ((eq_iff timestamped (MapLattice.join timestamped state.kvs (put_pairs ts ps state).kvs)
            (put_pairs ts ps state).kvs).0
          (le-put_pairs ts ps state) j)

  replica_at :
      (j : Key)
      → oeq (ojoin (MapLattice.get replica j) (MapLattice.get g.db j)) (MapLattice.get t.kvs j)
        ≡ true
  replica_at j = elim (Bool-cases (contains j (put_keys ps))) [
    | inl named ↦
        rw (sent.content j, named)
          (absorb_le (MapLattice.get state.kvs j) (MapLattice.get t.kvs j)
            (MapLattice.get replica j) (stored_above j)
            ((eq_iff timestamped state.kvs replica).0 equal j))
    | inr other ↦
        rw
          (
            sent.content j,
            other,
            join_none (MapLattice.get replica j),
            sent.stored,
            put_pairs_frame ts ps state j other,
          )
          (oeq_sym timestamped timestamped-IsLattice (MapLattice.get state.kvs j)
            (MapLattice.get replica j) ((eq_iff timestamped state.kvs replica).0 equal j))
  ]

  -- Replication: if a thread and a replica held == databases, the thread processes a put and the
  -- replica receives the gossip that the thread publishes, then they hold == databases again.
  pub receive_gossip-put : eq database (receive_gossip replica g).0 t.kvs ≡ true
  unfolding receive_gossip
  receive_gossip-put =
      (eq_iff timestamped (MapLattice.join timestamped replica g.db) t.kvs).1
        (λ j. rw (get-join timestamped replica g.db j) (replica_at j))
