-- ===== src/Tests/SystemRuns.antt =====
-- The threads of the server on their sockets: src/key_value_stores/server.cc.
use lattice_flow.Base.{ℕ, ◌≡◌, refl, Bool, true, false, some, [], ◌∷◌, arith, pos}
use lattice_flow.Std.UnorderedSet.{contains}
use lattice_flow.Lattices.Lattice.{eq}
use lattice_flow.Zmq.Proto.{send_proto}
use lattice_flow.Kvs.Message.{Request, put}
use lattice_flow.Kvs.Server
use lattice_flow.Kvs.Server.{
  State, GossipData, database, num_threads, process_request, put_pairs, succeeded, subscriptions,
}
use lattice_flow.Kvs.Server.Gossip.{IsFlushed, Sent, process_request-put}
use lattice_flow.Kvs.Worker.{Worker}
use lattice_flow.Kvs.Worker.Requests.{after_request}
use lattice_flow.Kvs.Worker.Moves.{after_gossip}
use lattice_flow.Kvs.Worker.Turns.{worker_turn-after_request, worker_turn-after_gossip}
use lattice_flow.Kvs.System.{
  System, new_system, with_worker, subscribe_thread, deliver_from, asks, subscribes, turns, Run,
  begins, goes_on,
}
use lattice_flow.Kvs.System.Convergence.{system_converges}
use lattice_flow.Tests.Codecs.{request_codec, response_codec}

abbrev a_put : Request
a_put = put (pos 7) ((1 ∷ [], 2 ∷ []) ∷ [])

-- Threads 0 and 2 subscribe, thread 2 has a request, answers it, and thread 0 processes what it has
-- published.
abbrev listening : System
listening = subscribe_thread 2 (subscribe_thread 0 new_system)

abbrev asked : System
asked =
    with_worker 2
      (record (listening.workers 2) {
        responder = send_proto request_codec a_put (listening.workers 2).responder;
      })
      listening

idle-IsFlushed : IsFlushed (Server.init 2)
unfolding Server.init
idle-IsFlushed = record { no_changes = refl; no_updates = refl }

abbrev written :
    (t : State) × (g : GossipData) × (process_request a_put (Server.init 2)
      ≡ some (t, succeeded, some g))
    × Sent ((1 ∷ [], 2 ∷ []) ∷ []) (put_pairs (pos 7) ((1 ∷ [], 2 ∷ []) ∷ []) (Server.init 2)) t g
written = process_request-put (pos 7) (1 ∷ [], 2 ∷ []) [] (Server.init 2) idle-IsFlushed

abbrev done : Worker
done =
    after_request (asked.workers 2) [] (send_proto response_codec succeeded []) written.0
      (some written.1)

abbrev all_taken : ℕ → Bool
all_taken j = true

abbrev delivered : System
delivered = deliver_from all_taken 2 done asked

abbrev caught_up : System
caught_up = deliver_from all_taken 0 (after_gossip (delivered.workers 0) written.1 []) delivered

asked-Run : Run request_codec response_codec asked
asked-Run =
    goes_on (goes_on (goes_on begins (subscribes 0 (omega arith))) (subscribes 2 (omega arith)))
      (asks 2 a_put)

delivered-Run : Run request_codec response_codec delivered
unfolding Server.init send_proto
delivered-Run = goes_on asked-Run (
    turns all_taken 2 true false done (omega arith) refl (omega arith) (a_put, [], refl) tt
      (worker_turn-after_request request_codec response_codec a_put [] (asked.workers 2) written.0
        succeeded (some written.1) refl written.2))

caught_up-Run : Run request_codec response_codec caught_up
unfolding Server.init contains subscriptions
caught_up-Run = goes_on delivered-Run (
    turns all_taken 0 false true (after_gossip (delivered.workers 0) written.1 []) (omega arith)
      refl (omega arith) tt (written.1, [], refl)
      (worker_turn-after_gossip request_codec response_codec (delivered.workers 0) written.1 []
        refl))

system_converges_example :
    eq database (caught_up.workers 2).state.kvs (caught_up.workers 0).state.kvs ≡ true
unfolding contains subscriptions
system_converges_example =
    system_converges request_codec response_codec caught_up 2 0 caught_up-Run (omega arith)
      (omega arith) refl refl refl refl
