-- ===== src/Tests/WorkerRuns.antt =====
-- A thread of the server on its sockets: src/key_value_stores/server.cc.
use lattice_flow.Base.{ℕ, ◌≡◌, refl, Bool, true, not, nat_beq, some, List, [], ◌∷◌, arith, pos}
use lattice_flow.Std.Lexicographic.{Bytes}
use lattice_flow.Zmq.Proto.{send_proto}
use lattice_flow.Kvs.Message.{Request, put}
use lattice_flow.Kvs.Server
use lattice_flow.Kvs.Server.{State, GossipData}
use lattice_flow.Kvs.Cluster.{Cluster, start}
use lattice_flow.Kvs.Client.{codes, repl}
use lattice_flow.Kvs.Client.Commit.{serve_thread}
use lattice_flow.Kvs.Client.ReadUncommitted.{RucClient, ruc_client}
use lattice_flow.Kvs.Client.ReadCommitted.{RcClient, rc_client}
use lattice_flow.Kvs.Client.ItemCut.{IciClient, ici_client}
use lattice_flow.Kvs.Worker.{Worker, registered, worker_turn}
use lattice_flow.Kvs.Worker.Wire.{Carries, call}
use lattice_flow.Kvs.Worker.Sessions.{session-Carries}
use lattice_flow.Kvs.Worker.Moves.{Moves}
use lattice_flow.Kvs.Worker.Turns.{worker_turn-Moves}
use lattice_flow.Tests.Codecs.{request_codec, response_codec}

abbrev new_worker : Worker
new_worker = record {
  state = Server.init 2;
  responder = [];
  replies = [];
  subscriber = [];
  publisher = [];
}

abbrev typed : List Bytes
typed = codes "BEGIN TRANSACTION" ∷ codes "PUT a b" ∷ codes "GET a" ∷ codes "END TRANSACTION" ∷ []

session-Carries_example :
    ((c : RucClient)
      → Carries
          (repl (ruc_client (call request_codec response_codec)) typed c new_worker)
          (repl (ruc_client serve_thread) typed c new_worker.state))
    × ((c : RcClient)
        → Carries
            (repl (rc_client (call request_codec response_codec)) typed c new_worker)
            (repl (rc_client serve_thread) typed c new_worker.state))
    × ((c : IciClient)
        → Carries
            (repl (ici_client (call request_codec response_codec)) typed c new_worker)
            (repl (ici_client serve_thread) typed c new_worker.state))
session-Carries_example =
    session-Carries request_codec response_codec typed new_worker
      (record { no_request = refl; no_reply = refl })

abbrev busy_put : Request
busy_put = put (pos 7) ((1 ∷ [], 2 ∷ []) ∷ [])

-- A put waits at the responder, and a gossip at the subscriber.
abbrev busy_worker : Worker
busy_worker = record new_worker {
  responder = send_proto request_codec busy_put [];
  subscriber = record { db = (Server.init 1).kvs; num_processed = 0 } ∷ [];
}

abbrev around : Cluster
around = record start { subscribed = λ j. true; inbox = λ j. busy_worker.subscriber }

-- All sockets but that of thread 3 take what is published.
abbrev most_taken : ℕ → Bool
most_taken j = not (nat_beq j 3)

worker_turn-Moves_example :
    (v : Worker) × (d : Cluster) × (worker_turn request_codec response_codec
        (true ∷ true ∷ [])
        (registered request_codec response_codec)
        busy_worker
      ≡ some (registered request_codec response_codec, v))
    × Moves most_taken 2 busy_worker around v d
unfolding Server.init send_proto
worker_turn-Moves_example =
    worker_turn-Moves request_codec response_codec most_taken true true 2 around busy_worker
      (omega arith) refl
      (record {
        state_at = refl;
        inbox_at = refl;
        flushed = record { no_changes = refl; no_updates = refl };
        named = refl;
      })
      (omega arith) (busy_put, [], refl)
      (record { db = (Server.init 1).kvs; num_processed = 0 }, [], refl)
