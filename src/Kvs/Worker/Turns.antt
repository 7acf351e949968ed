-- ===== src/Kvs/Worker/Turns.antt =====
-- The turns of the driver of a thread, as steps of the threads of the server.
use lattice_flow.Base.{
  ℕ, ◌+◌, ◌*◌, ◌<◌, ◌≤◌, ◌≡◌, refl, ◌∙◌, ap, Bool, true, false, Option, some, List, [], ◌∷◌, ◌++◌,
  nat_eq,
}
use lattice_flow.Std.Decimal.{int_max}
use lattice_flow.Zmq.Envelope.{Frame}
use lattice_flow.Zmq.Proto.{Codec, send_proto}
use lattice_flow.Click.Driver.{register_event_handler, turn, dispatch, register_all, keep}
use lattice_flow.Kvs.Message.{Request, Response}
use lattice_flow.Kvs.Server.{State, GossipData, num_threads, process_request}
use lattice_flow.Kvs.Server.Transactions.{process_request_total}
use lattice_flow.Kvs.Cluster.{Cluster, process, receive}
use lattice_flow.Kvs.Worker.{
  Worker, Handler, request_in, gossip_in, published, run, run_request, run_gossip, registered,
  worker_turn,
}
use lattice_flow.Kvs.Worker.Requests.{after_request, run_request-some}
use lattice_flow.Kvs.Worker.Moves.{
  IsAt, Moves, Moves-trans, Moves-refl, request-Moves, after_gossip, gossip-Moves,
}

module _ (𝓻 : Codec Request) (𝓼 : Codec Response) where
  -- A message has come, whenever the flag of its event is set.
  abbrev pub Asked : Bool → Worker → Type 0
  Asked true w =
      (request : Request) × (rest : List Frame) × (w.responder ≡ send_proto 𝓻 request [] ++ rest)
  Asked false w = Unit

  abbrev pub Gossiped : Bool → Worker → Type 0
  Gossiped true w = (g : GossipData) × (rest : List GossipData) × (w.subscriber ≡ g ∷ rest)
  Gossiped false w = Unit

  run-gossip_in :
      (w : Worker) (g : GossipData) (rest : List GossipData)
      → w.subscriber ≡ g ∷ rest
      → run 𝓻 𝓼 gossip_in w ≡ some (after_gossip w g rest, [])
  unfolding run run_gossip lattice_flow.Kvs.Worker.gossip lattice_flow.Click.Forward.call_push
  run-gossip_in w g rest e = rw (run, run_gossip, e) refl

  -- At a thread that can answer, the handler of a request that has come moves the server.
  run-request_in :
      (taken : ℕ → Bool) (j : ℕ) (c : Cluster) (w : Worker)
      → j < num_threads
      → c.subscribed j ≡ true
      → IsAt j w c
      → w.state.local_timestamp * 10 + j ≤ int_max
      → Asked true w
      → (v : Worker) × (d : Cluster) × (run 𝓻 𝓼 request_in w ≡ some (v, []))
        × Moves taken j w c v d
        × (v.subscriber ≡ w.subscriber)
  unfolding run
  run-request_in taken j c w l s h k (request, rest, e) =
      let (t, response, sent, ran, f, n) =
        process_request_total request w.state h.flushed (rw (h.named) l) (rw (h.named) k) in
      (
        after_request w rest (send_proto 𝓼 response w.replies) t sent,
        process j t sent taken c,
        rw (run, run_request-some 𝓻 𝓼 request rest w t response sent e ran) refl,
        request-Moves taken j c w request rest (send_proto 𝓼 response w.replies) t response sent l s
            h f n ran,
        refl,
      )

  turn_request :
      (b : Bool) (w v u : Worker)
      → run 𝓻 𝓼 request_in w ≡ some (v, [])
      → worker_turn 𝓻 𝓼 (false ∷ b ∷ []) (registered 𝓻 𝓼) v ≡ some (registered 𝓻 𝓼, u)
      → worker_turn 𝓻 𝓼 (true ∷ b ∷ []) (registered 𝓻 𝓼) w ≡ some (registered 𝓻 𝓼, u)
  unfolding worker_turn registered register_event_handler turn dispatch register_all keep
  turn_request b w v u ran rest = rw (worker_turn, turn, dispatch, ran) rest

  turn_gossip :
      (w v : Worker)
      → run 𝓻 𝓼 gossip_in w ≡ some (v, [])
      → worker_turn 𝓻 𝓼 (false ∷ true ∷ []) (registered 𝓻 𝓼) w ≡ some (registered 𝓻 𝓼, v)
  unfolding worker_turn registered register_event_handler turn dispatch register_all keep
  turn_gossip w v ran = rw (worker_turn, turn, dispatch, ran) refl

  turn_nothing :
      (w : Worker)
      → worker_turn 𝓻 𝓼 (false ∷ false ∷ []) (registered 𝓻 𝓼) w ≡ some (registered 𝓻 𝓼, w)
  unfolding worker_turn registered register_event_handler turn dispatch register_all keep
  turn_nothing w = refl

  -- What a turn with nothing but a request comes to, and one with nothing but a gossip.
  pub worker_turn-after_request :
      (request : Request) (rest : List Frame) (w : Worker) (t : State) (response : Response)
      (sent : Option GossipData)
      → w.responder ≡ send_proto 𝓻 request [] ++ rest
      → process_request request w.state ≡ some (t, response, sent)
      → worker_turn 𝓻 𝓼 (true ∷ false ∷ []) (registered 𝓻 𝓼) w
        ≡ some (registered 𝓻 𝓼, after_request w rest (send_proto 𝓼 response w.replies) t sent)
  unfolding run
  worker_turn-after_request request rest w t response sent h e =
      let v = after_request w rest (send_proto 𝓼 response w.replies) t sent in
      turn_request false w v v
        (rw (run, run_request-some 𝓻 𝓼 request rest w t response sent h e) refl) (turn_nothing v)

  pub worker_turn-after_gossip :
      (w : Worker) (g : GossipData) (rest : List GossipData)
      → w.subscriber ≡ g ∷ rest
      → worker_turn 𝓻 𝓼 (false ∷ true ∷ []) (registered 𝓻 𝓼) w
        ≡ some (registered 𝓻 𝓼, after_gossip w g rest)
  worker_turn-after_gossip w g rest e =
      turn_gossip w (after_gossip w g rest) (run-gossip_in w g rest e)

  -- A turn of the driver of a thread that has subscribed, between two requests, whose next transaction timestamp is an
  -- `int`, and whose sockets hold what their flags say, takes the server through steps of its threads.
  -- It ends, with the same handlers registered. The other threads are as they were, and what is published
  -- in the turn has come to each of them that had subscribed and whose socket takes it, whichever do, and
  -- was dropped for the others.
  pub worker_turn-Moves :
      (taken : ℕ → Bool) (a b : Bool) (j : ℕ) (c : Cluster) (w : Worker)
      → j < num_threads
      → c.subscribed j ≡ true
      → IsAt j w c
      → w.state.local_timestamp * 10 + j ≤ int_max
      → Asked a w
      → Gossiped b w
      → (v : Worker) × (d : Cluster) × (worker_turn 𝓻 𝓼 (a ∷ b ∷ []) (registered 𝓻 𝓼) w
          ≡ some (registered 𝓻 𝓼, v))
        × Moves taken j w c v d
  worker_turn-Moves taken false false j c w l s h k p q =
      (w, c, turn_nothing w, Moves-refl taken j w c h)
  worker_turn-Moves taken false true j c w l s h k p (g, rest, e) = (
    after_gossip w g rest,
    receive j g rest c,
    turn_gossip w (after_gossip w g rest) (run-gossip_in w g rest e),
    gossip-Moves taken j c w g rest l s h e,
  )
  worker_turn-Moves taken true false j c w l s h k p q =
      let (v, d, ran, m, same) = run-request_in taken j c w l s h k p in
      (v, d, turn_request false w v v ran (turn_nothing v), m)
  worker_turn-Moves taken true true j c w l s h k p (g, rest, e) =
      let (v, d, ran, m, same) = run-request_in taken j c w l s h k p in
      let u = after_gossip v g rest in
      (
        u,
        receive j g rest d,
        turn_request true w v u ran (turn_gossip v u (run-gossip_in v g rest (same ∙ e))),
        Moves-trans taken j w c v d u (receive j g rest d) m
            (gossip-Moves taken j d v g rest l (ap (λ f. f j) m.listening ∙ s) m.at (same ∙ e)),
      )
