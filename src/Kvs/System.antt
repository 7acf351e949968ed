-- ===== src/Kvs/System.antt =====
-- All the threads of src/key_value_stores/server.cc on their sockets: each runs its driver, the clients
-- send requests and receive responses, and what a thread publishes comes to those that have subscribed
-- to it, or is dropped.
pub mod Convergence
use mathlib.Core.List.{append-nil}
use lattice_flow.Base.{
  ℕ, ◌+◌, ◌*◌, ◌<◌, ◌≤◌, ◌≡◌, refl, sym, ◌∙◌, ap, subst, Bool, true, false, not, ◌&&◌, some, List,
  [], ◌∷◌, ◌++◌, arith, nat_beq, nat_beq_iff, nat_eq, if◌then◌else◌, Bool-cases, inl, inr,
}
use lattice_flow.Std.UnorderedSet.{contains}
use lattice_flow.Std.Update.{update}
use lattice_flow.Std.Decimal.{int_max}
use lattice_flow.Zmq.Envelope.{Frame}
use lattice_flow.Zmq.Proto.{Codec, send_proto, recv_proto}
use lattice_flow.Lattices.Lattice.{eq}
use lattice_flow.Kvs.Message.{Request, Response}
use lattice_flow.Kvs.Server
use lattice_flow.Kvs.Server.{GossipData, database, num_threads, subscriptions}
use lattice_flow.Kvs.Cluster
use lattice_flow.Kvs.Cluster.{Cluster, Reach, here, next, start, subscribe, comes}
use lattice_flow.Kvs.Cluster.Invariant.{subscribed}
use lattice_flow.Kvs.Cluster.Convergence.{cluster_converges, start-Agrees}
use lattice_flow.Kvs.Server.Gossip.{IsFlushed}
use lattice_flow.Kvs.Worker.{Worker, registered, worker_turn}
use lattice_flow.Kvs.Worker.Moves.{IsAt, Moves, Reach-trans, arrived}
use lattice_flow.Kvs.Worker.Turns.{Asked, Gossiped, worker_turn-Moves}

-- By thread number: the thread, whether it has subscribed to the others, and what was published for it
-- and dropped.
pub record System : Type 0 where
  pub workers : ℕ → Worker
  pub subscribed : ℕ → Bool
  pub lost : ℕ → List GossipData

-- All threads have passed the barrier, and none has subscribed.
abbrev pub new_system : System
new_system = record {
  workers = λ i. record {
    state = Server.init i;
    responder = [];
    replies = [];
    subscriber = [];
    publisher = [];
  };
  subscribed = λ i. false;
  lost = λ i. [];
}

-- A thread's other sockets, as the clients change them.
abbrev pub with_worker : ℕ → Worker → System → System
with_worker j v s = record s { workers = update j v s.workers }

abbrev pub subscribe_thread : ℕ → System → System
subscribe_thread j s = record s { subscribed = update j true s.subscribed }

-- What a thread publishes comes to a thread that has subscribed, if the sockets take it.
abbrev pub reaches : (ℕ → Bool) → System → ℕ → Bool
reaches taken s k = s.subscribed k && taken k

-- Thread `j` has come to a state, and what it has published goes to the threads that subscribe to it,
-- or is dropped.
abbrev pub deliver_from : (ℕ → Bool) → ℕ → Worker → System → System
deliver_from taken j v s = record s {
  workers = λ k. if nat_beq j k then record v { publisher = [] } else record (s.workers k) {
    subscriber =
        if contains j (subscriptions k) && reaches taken s k
        then (s.workers k).subscriber ++ v.publisher
        else (s.workers k).subscriber;
  };
  lost = λ k.
      if contains j (subscriptions k) && not (reaches taken s k)
      then s.lost k ++ v.publisher
      else s.lost k;
}

module _ (𝓻 : Codec Request) (𝓼 : Codec Response) where
  -- A client sends a request to a thread, or receives a response from it; or a thread subscribes, and
  -- then takes turns, whose flags say only of messages that are there that they are.
  pub data Step (s : System) : System → Type 0 where
    asks :
        (j : ℕ) (request : Request)
        → Step s (
            with_worker j
              (record (s.workers j) { responder = send_proto 𝓻 request (s.workers j).responder })
              s)
    answers :
        (j : ℕ) (response : Response) (rest : List Frame)
        → recv_proto 𝓼 (s.workers j).replies ≡ some (response, rest)
        → Step s (with_worker j (record (s.workers j) { replies = rest }) s)
    subscribes : (j : ℕ) → j < num_threads → Step s (subscribe_thread j s)
    turns :
        (taken : ℕ → Bool) (j : ℕ) (a b : Bool) (v : Worker)
        → j < num_threads
        → s.subscribed j ≡ true
        → (s.workers j).state.local_timestamp * 10 + j ≤ int_max
        → Asked 𝓻 𝓼 a (s.workers j)
        → Gossiped 𝓻 𝓼 b (s.workers j)
        → worker_turn 𝓻 𝓼 (a ∷ b ∷ []) (registered 𝓻 𝓼) (s.workers j) ≡ some (registered 𝓻 𝓼, v)
        → Step s (deliver_from taken j v s)

  pub data Run : System → Type 0 where
    begins : Run new_system
    goes_on : {s u : System} → Run s → Step s u → Run u
