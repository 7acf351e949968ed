-- ===== src/Kvs/Worker/Requests.antt =====
-- A request of a client over the wire: src/key_value_stores/server.cc and the clients.
use lattice_flow.Base.{◌≡◌, refl, ◌∙◌, ap, Option, none, some, List, [], ◌++◌}
use lattice_flow.Zmq.Envelope.{Frame, send_enveloped_msg, recv_enveloped_msg-send_enveloped_msg}
use lattice_flow.Zmq.Message.{EnvelopedMessage, empty}
use lattice_flow.Zmq.Proto.{Codec, proto_to_message, send_proto, message_to_proto-proto_to_message}
use lattice_flow.Click.Forward.{map_push}
use lattice_flow.Click.Socket.{socket_send, socket_recv, socket_recv_lem}
use lattice_flow.Kvs.Message.{Request, Response}
use lattice_flow.Kvs.Server.{State, GossipData, process_request}
use lattice_flow.Kvs.Worker.{
  Worker, published, request_out, to_message, handle_request, to_request, run_request,
}

-- What `process_request` gave, in a thread that had no other message to receive or to be received.
abbrev pub after_request : Worker → List Frame → List Frame → State → Option GossipData → Worker
after_request w rest replies t sent = record w {
  state = t;
  responder = rest;
  replies = replies;
  publisher = w.publisher ++ published sent;
}

module _ (𝓻 : Codec Request) (𝓼 : Codec Response) where
  wire : Request → EnvelopedMessage
  wire request = record { cid = empty; msg = proto_to_message 𝓻 request }

  send_proto_lem : (request : Request) → send_proto 𝓻 request [] ≡ send_enveloped_msg (wire request)
  unfolding wire send_proto empty send_enveloped_msg lattice_flow.Zmq.Envelope.send_ids
  send_proto_lem request = refl

  to_request-wire :
      (request : Request) (r : Option Worker)
      → to_request 𝓻 𝓼 (wire request) r ≡ handle_request 𝓻 𝓼 request r
  unfolding wire to_request map_push
  to_request-wire request r =
      ap (λ q. handle_request 𝓻 𝓼 q r) (message_to_proto-proto_to_message 𝓻 request)

  received :
      (request : Request) (rest : List Frame) (w : Worker)
      → w.responder ≡ send_proto 𝓻 request [] ++ rest
      → socket_recv (to_request 𝓻 𝓼) w.responder (some w)
        ≡ some (rest, handle_request 𝓻 𝓼 request (some w))
  received request rest w h =
      ap (λ fs. socket_recv (to_request 𝓻 𝓼) fs (some w))
        (h ∙ ap (λ fs. fs ++ rest) (send_proto_lem request))
      ∙ socket_recv_lem (to_request 𝓻 𝓼) (wire request) rest (some w)
      ∙ ap (λ r. some (rest, r)) (to_request-wire request (some w))

  -- The handler of the responder socket takes the request that is in front, and what it sends is the
  -- response.
  pub run_request-none :
      (request : Request) (rest : List Frame) (w : Worker)
      → w.responder ≡ send_proto 𝓻 request [] ++ rest
      → process_request request w.state ≡ none
      → run_request 𝓻 𝓼 w ≡ none
  unfolding run_request handle_request
  run_request-none request rest w h e =
      rw (run_request, received request rest w h, handle_request, e) refl

  pub run_request-some :
      (request : Request) (rest : List Frame) (w : Worker) (t : State) (response : Response)
      (sent : Option GossipData)
      → w.responder ≡ send_proto 𝓻 request [] ++ rest
      → process_request request w.state ≡ some (t, response, sent)
      → run_request 𝓻 𝓼 w ≡ some (after_request w rest (send_proto 𝓼 response w.replies) t sent)
  unfolding run_request handle_request to_message map_push request_out socket_send send_proto empty
      send_enveloped_msg lattice_flow.Zmq.Envelope.send_ids
  run_request-some request rest w t response sent h e =
      rw (run_request, received request rest w h, handle_request, e) refl
