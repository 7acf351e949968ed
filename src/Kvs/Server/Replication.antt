-- ===== src/Kvs/Server/Replication.antt =====
-- The threads of a server as replicas: runs of requests and of gossip.
use mathlib.Core.List.{Mem}
use lattice_flow.Base.{
  ℕ, zero, suc, ◌+◌, ◌<◌, ◌≡◌, refl, sym, ◌∙◌, subst, ℤ, Bool, true, false, ◌||◌, Option, some,
  List, [], ◌∷◌, arith, length, ◌↔◌, filter_by, range_from, nat_eq,
}
use lattice_flow.Lattices.Lattice.{eq}
use lattice_flow.Lattices.Converge.{join_all, join_all_converge}
use lattice_flow.Std.UnorderedSet.{contains}
use lattice_flow.Kvs.Message.{Key, Value, Response, put}
use lattice_flow.Kvs.Server.{
  State, Database, GossipData, database, num_threads, receive_gossip, process_request, succeeded,
  subscriptions,
}
use lattice_flow.Kvs.Server.Put.{database-IsLattice}
use lattice_flow.Kvs.Server.Gossip.{IsFlushed, process_request-put, receive_gossip-put}

some_triple :
    (s t : State) (q r : Response) (g h : GossipData)
    → ◌≡◌ {A = Option (State × Response × Option GossipData)}
        (some (s, q, some g))
        (some (t, r, some h))
    → (s ≡ t) × (g ≡ h)
some_triple s t q r g h e = ground arith

-- Replication: a thread that has gossiped all its updates holds a database that is == to that of a
-- replica. It processes a put of at least one pair and publishes a gossip, and the replica receives
-- it. Then the two databases are == again.
pub put-replicates :
    (ts : ℤ) (p : Key × Value) (ps : List (Key × Value)) (state t : State) (response : Response)
    (g : GossipData) (replica : Database)
    → IsFlushed state
    → eq database state.kvs replica ≡ true
    → process_request (put ts (p ∷ ps)) state ≡ some (t, response, some g)
    → eq database (receive_gossip replica g).0 t.kvs ≡ true
put-replicates ts p ps state t response g replica f equal run =
    let (t', g', made, sent) = process_request-put ts p ps state f in
    let (et, eg) = some_triple t' t succeeded response g' g (sym made ∙ run) in
    subst (λ h. eq database (receive_gossip replica h).0 t.kvs ≡ true) eg
      (subst (λ s. eq database (receive_gossip replica g').0 s.kvs ≡ true) et
        (receive_gossip-put ts (p ∷ ps) state t' g' sent replica equal))

-- A thread that receives one gossip after another.
unfoldable pub receive_all : Database → List GossipData → Database
receive_all db [] = db
receive_all db (g ∷ gs) = receive_all (receive_gossip db g).0 gs

abbrev dbs : List GossipData → List Database
dbs [] = []
dbs (g ∷ gs) = g.db ∷ dbs gs

receive_all-join_all :
    (db : Database) (gs : List GossipData) → receive_all db gs ≡ join_all database db (dbs gs)
unfolding receive_all receive_gossip join_all
receive_all-join_all db [] = refl
receive_all-join_all db (g ∷ gs) = receive_all-join_all (receive_gossip db g).0 gs

-- Convergence: two replicas that start with the same database and receive gossip of the same
-- databases, in any order and each any number of times, end with == databases.
pub receive_all_converge :
    (db : Database) (gs hs : List GossipData)
    → ((m : Database) → Mem m (dbs gs) ↔ Mem m (dbs hs))
    → eq database (receive_all db gs) (receive_all db hs) ≡ true
receive_all_converge db gs hs h =
    rw (receive_all-join_all db gs, receive_all-join_all db hs)
      (join_all_converge database database-IsLattice db (dbs gs) (dbs hs) h)

-- One thread after another processes the same gossip; the flag says whether any of them freed it.
unfoldable pub deliver : List Database → GossipData → List Database × GossipData × Bool
deliver [] g = ([], g, false)
deliver (db ∷ rest) g =
    let (db', g', freed) = receive_gossip db g in
    let (rest', g'', later) = deliver rest g' in (db' ∷ rest', g'', freed || later)

-- The threads that are subscribed to a publisher.
unfoldable pub subscribers : ℕ → List ℕ
subscribers publisher =
    filter_by (λ i. contains publisher (subscriptions i)) (range_from 0 num_threads)

deliver_few :
    (replicas : List Database) (g : GossipData)
    → g.num_processed + length replicas < num_threads
    → (deliver replicas g).2 ≡ false
unfolding deliver receive_gossip
deliver_few [] g h = refl
deliver_few (db ∷ rest) g h =
    ground (arith, deliver_few rest (record g { num_processed = g.num_processed + 1 }))

length-subscribers : (publisher : ℕ) → publisher < num_threads → length (subscribers publisher) ≡ 3
unfolding subscribers subscriptions contains
length-subscribers zero h = refl
length-subscribers (suc zero) h = refl
length-subscribers (suc (suc zero)) h = refl
length-subscribers (suc (suc (suc zero))) h = refl
length-subscribers (suc (suc (suc (suc n)))) h = absurd (omega arith)

-- No thread frees a gossip: when each thread that is subscribed to the publisher has processed it
-- once, none of them has met the count at which it is deleted.
pub gossip_never_freed :
    (publisher : ℕ) (replicas : List Database) (g : GossipData)
    → publisher < num_threads
    → length replicas ≡ length (subscribers publisher)
    → g.num_processed ≡ 0
    → (deliver replicas g).2 ≡ false
gossip_never_freed publisher replicas g h each zeroed =
    deliver_few replicas g (omega (arith, length-subscribers publisher h))
