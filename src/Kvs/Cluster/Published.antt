-- ===== src/Kvs/Cluster/Published.antt =====
-- What a request does to a thread's database, and what its gossip does to the others'.
use lattice_flow.Base.{◌≡◌, sym, subst, ◌∙◌, true, Option, none, some, [], ◌∷◌, arith}
use lattice_flow.Lattices.Lattice.{eq}
use lattice_flow.Kvs.Message.{Request, Response, begin_transaction, get, put, not_set}
use lattice_flow.Kvs.Server.{
  State, Database, GossipData, database, process_request, receive_gossip, respond, flush, put_pairs,
}
use lattice_flow.Kvs.Server.Put.{database-IsLattice, put_pairs_rest}
use lattice_flow.Kvs.Server.Gossip.{IsFlushed, process_request-put, receive_gossip-put}

-- No gossip means no change, and a gossip is what the thread has added.
abbrev pub Added : Database → Option GossipData → Database → Type 0
Added before none after = before ≡ after
Added before (some g) after = eq database (receive_gossip before g).0 after ≡ true

pub record Published (s : State) (sent : Option GossipData) (t : State) : Type 0 where
  pub flushed : IsFlushed t
  pub thread : t.thread_id ≡ s.thread_id
  pub added : Added s.kvs sent t.kvs

quiet :
    (s t : State) (sent : Option GossipData)
    → IsFlushed t
    → t.thread_id ≡ s.thread_id
    → s.kvs ≡ t.kvs
    → sent ≡ none
    → Published s sent t
quiet s t none f i h e = record { flushed = f; thread = i; added = h }
quiet s t (some g) f i h e = absurd (ground arith)

put-Published :
    (s t t' : State) (r r' : Response) (g : GossipData) (sent : Option GossipData)
    → ◌≡◌ {A = Option (State × Response × Option GossipData)}
        (some (t', r', some g))
        (some (t, r, sent))
    → Published s (some g) t'
    → Published s sent t
put-Published s t t' r r' g none e p = absurd (ground arith)
put-Published s t t' r r' g (some h) e p =
    let same : (t', g) ≡ (t, h) = ground arith in
    subst (λ (q : State × GossipData). Published s (some q.1) q.0) same p

-- A request that a thread answers with all its updates gossiped leaves it so, and changes its
-- database by just what it publishes.
pub process_request-Published :
    (request : Request) (s t : State) (response : Response) (sent : Option GossipData)
    → IsFlushed s
    → process_request request s ≡ some (t, response, sent)
    → Published s sent t
unfolding process_request respond flush put_pairs
process_request-Published begin_transaction s t response sent f run =
    quiet s t sent (ground arith) (ground arith) (ground arith) (ground arith)
process_request-Published (get key) s t response sent f run =
    quiet s t sent (ground arith) (ground arith) (ground arith) (ground arith)
process_request-Published not_set s t response sent f run =
    quiet s t sent (ground arith) (ground arith) (ground arith) (ground arith)
process_request-Published (put ts []) s t response sent f run =
    quiet s t sent (ground arith) (ground arith) (ground arith) (ground arith)
process_request-Published (put ts (p ∷ ps)) s t response sent f run =
    let (t', g, made, out) = process_request-put ts p ps s f in
    put-Published s t t' response _ g sent (sym made ∙ run) (record {
      flushed = out.flushed;
      thread = out.thread ∙ (put_pairs_rest ts (p ∷ ps) s).2;
      added = receive_gossip-put ts (p ∷ ps) s t' g out s.kvs (database-IsLattice.eq_refl s.kvs);
    })
