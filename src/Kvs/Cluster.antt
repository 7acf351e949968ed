-- ===== src/Kvs/Cluster.antt =====
-- The threads of one server, src/key_value_stores/server.cc, after the barrier of `worker_routine`: each
-- subscribes to the others, works on its own database and publishes. A socket of ZeroMQ drops what it
-- publishes to a thread whose subscription has not come to it, or whose queue is full; what it keeps comes
-- in any order, and once.
pub mod Published
pub mod Invariant
pub mod Convergence
pub mod Settling
use lattice_flow.Base.{
  ℕ, ◌<◌, ◌≡◌, Option, none, some, List, [], ◌∷◌, ◌++◌, if◌then◌else◌, nat_beq, nat_eq, Bool, true,
  false, not, ◌&&◌,
}
use lattice_flow.Std.Update.{update}
use lattice_flow.Std.UnorderedSet.{contains}
use lattice_flow.Kvs.Message.{Request, Response}
use lattice_flow.Kvs.Server
use lattice_flow.Kvs.Server.{
  State, GossipData, num_threads, process_request, receive_gossip, subscriptions,
}

-- By thread number: its state, whether it has subscribed to the others, the gossip that its subscriber
-- socket holds, and what was published for it and dropped, which no thread sees.
pub record Cluster : Type 0 where
  pub threads : ℕ → State
  pub subscribed : ℕ → Bool
  pub inbox : ℕ → List GossipData
  pub lost : ℕ → List GossipData

-- All threads have passed the barrier of `worker_routine`; none has subscribed, or had a message.
abbrev pub start : Cluster
start = record { threads = Server.init; subscribed = λ j. false; inbox = λ j. []; lost = λ j. [] }

-- `send_pointer` on the publisher of thread `i`: what it adds for each other thread, if this holds of it.
unfoldable pub publish :
    ℕ → Option GossipData → (ℕ → Bool) → (ℕ → List GossipData) → ℕ → List GossipData
publish i none holds gossip j = gossip j
publish i (some g) holds gossip j =
    if contains i (subscriptions j) && holds j then gossip j ++ g ∷ [] else gossip j

-- The threads that a publication comes to: they have subscribed, and their sockets take it.
abbrev pub comes : (ℕ → Bool) → Cluster → ℕ → Bool
comes taken c j = c.subscribed j && taken j

-- One turn of a thread's event loop: a request, after which its state is `t`, or a gossip.
abbrev pub process : ℕ → State → Option GossipData → (ℕ → Bool) → Cluster → Cluster
process i t sent taken c = record c {
  threads = update i t c.threads;
  inbox = publish i sent (comes taken c) c.inbox;
  lost = publish i sent (λ j. not (comes taken c j)) c.lost;
}

abbrev pub merge : GossipData → State → State
merge g state = record state { kvs = (receive_gossip state.kvs g).0 }

abbrev pub receive : ℕ → GossipData → List GossipData → Cluster → Cluster
receive j g rest c = record c {
  threads = update j (merge g (c.threads j)) c.threads;
  inbox = update j rest c.inbox;
}

-- The loop of `worker_routine` over the other threads, and the subscription after it.
abbrev pub subscribe : ℕ → Cluster → Cluster
subscribe j c = record c { subscribed = update j true c.subscribed }

-- A thread that has subscribed runs its driver. What it publishes is taken by any of the sockets.
pub data Step (c : Cluster) : Cluster → Type 0 where
  subscribes : (j : ℕ) → j < num_threads → Step c (subscribe j c)
  processes :
      (i : ℕ) (request : Request) (t : State) (response : Response) (sent : Option GossipData)
      (taken : ℕ → Bool)
      → i < num_threads
      → c.subscribed i ≡ true
      → process_request request (c.threads i) ≡ some (t, response, sent)
      → Step c (process i t sent taken c)
  receives :
      (j : ℕ) (early late : List GossipData) (g : GossipData)
      → j < num_threads
      → c.subscribed j ≡ true
      → c.inbox j ≡ early ++ g ∷ late
      → Step c (receive j g (early ++ late) c)

pub data Reach (c : Cluster) : Cluster → Type 0 where
  here : Reach c c
  next : {d e : Cluster} → Reach c d → Step d e → Reach c e
