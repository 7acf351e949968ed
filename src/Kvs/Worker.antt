-- ===== src/Kvs/Worker.antt =====
-- `worker_routine` of src/key_value_stores/server.cc, after the barrier: the elements around a thread,
-- its two event handlers, and the driver that runs them.
pub mod Requests
pub mod Wire
pub mod Sessions
pub mod Moves
pub mod Turns
use lattice_flow.Base.{◌≡◌, refl, Bool, false, Option, none, some, List, [], ◌∷◌, ◌++◌}
use lattice_flow.Std.Lexicographic.{Bytes}
use lattice_flow.PushPull.Element.{Pusher}
use lattice_flow.Zmq.Message.{EnvelopedMessage, empty}
use lattice_flow.Zmq.Envelope.{Frame}
use lattice_flow.Zmq.Proto.{Codec, proto_to_message, message_to_proto}
use lattice_flow.Click.Forward.{map_push, call_push}
use lattice_flow.Click.Socket.{socket_recv, socket_send}
use lattice_flow.Click.Driver.{Driver, register_event_handler, turn}
use lattice_flow.Kvs.Message.{Request, Response}
use lattice_flow.Kvs.Server.{State, GossipData, process_request}
use lattice_flow.Kvs.Cluster.{merge}

-- The state, what is to be received over the socket `responder` and what was sent over it, the gossip
-- that waits in `subscriber`, as the data that the pointers point to, and what `publisher` was given.
pub record Worker : Type 0 where
  pub state : State
  pub responder : List Frame
  pub replies : List Frame
  pub subscriber : List GossipData
  pub publisher : List GossipData

-- `none`: an exception has ended the thread.
abbrev Element : Type 0 → Type 0
Element T = Pusher T (Option Worker)

abbrev pub published : Option GossipData → List GossipData
published none = []
published (some g) = g ∷ []

unfoldable pub request_out : Element EnvelopedMessage
request_out env none = none
request_out env (some w) = some (record w { replies = socket_send env w.replies })

unfoldable pub to_message : Element Bytes
to_message = map_push (λ s. record { cid = empty; msg = s }) request_out

-- `receive_gossip` on the database of the thread.
unfoldable pub gossip : Element GossipData
gossip =
    call_push (λ g r. elim r [ none ↦ none | some w ↦ some (record w { state = merge g w.state }) ])

pub data Handler : Type 0 where
  request_in : Handler
  gossip_in : Handler

abbrev pub never_one_off : Handler → Bool
never_one_off h = false

module _ (𝓻 : Codec Request) (𝓼 : Codec Response) where
  -- What `process_request` returns is the response in bytes.
  unfoldable pub handle_request : Element Request
  handle_request request none = none
  handle_request request (some w) = elim (process_request request w.state) [
    | none ↦ none
    | some (t, response, sent) ↦
        to_message (proto_to_message 𝓼 response)
          (some (record w { state = t; publisher = w.publisher ++ published sent }))
  ]

  unfoldable pub to_request : Element EnvelopedMessage
  to_request = map_push (λ env. message_to_proto 𝓻 env.msg) handle_request

  unfoldable pub run_request : Worker → Option Worker
  run_request w = elim (socket_recv to_request w.responder (some w)) [
    | none ↦ none
    | some (rest, r) ↦ elim r [ none ↦ none | some w' ↦ some (record w' { responder = rest }) ]
  ]

  unfoldable pub run_gossip : Worker → Option Worker
  run_gossip w = elim w.subscriber [
    | [] ↦ none
    | g ∷ rest ↦ gossip g (some (record w { subscriber = rest }))
  ]

  unfoldable pub run : Handler → Worker → Option (Worker × List Handler)
  run request_in w = elim (run_request w) [ none ↦ none | some w' ↦ some (w', []) ]
  run gossip_in w = elim (run_gossip w) [ none ↦ none | some w' ↦ some (w', []) ]

  unfoldable pub registered : Driver Handler Handler
  registered =
      register_event_handler (λ h. h) never_one_off run gossip_in
        (register_event_handler (λ h. h) never_one_off run request_in
          (record { event_handlers = []; pollitems = [] }))

  unfoldable pub worker_turn :
      List Bool → Driver Handler Handler → Worker → Option (Driver Handler Handler × Worker)
  worker_turn = turn (λ h. h) never_one_off run
