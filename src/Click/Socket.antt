-- ===== src/Click/Socket.antt =====
-- src/click/socket_recv.h, socket_send.h and socket_send.cc: elements at the two ends of a graph. A
-- socket is the frames that are yet to be received from it, or those that have been sent over it.
use lattice_flow.Base.{◌≡◌, refl, Option, none, some, List, ◌++◌}
use lattice_flow.PushPull.Element.{Pusher}
use lattice_flow.Zmq.Message.{EnvelopedMessage}
use lattice_flow.Zmq.Envelope.{
  Frame, recv_enveloped_msg, send_enveloped_msg, recv_enveloped_msg-send_enveloped_msg,
}

module _ {ℓ} {S : Type ℓ} where
  -- `Run` of a `SocketRecv`. `none`: it waits for a message.
  unfoldable pub socket_recv : Pusher EnvelopedMessage S → List Frame → S → Option (List Frame × S)
  socket_recv downstream frames s = elim (recv_enveloped_msg frames) [
    | none ↦ none
    | some (env, rest) ↦ some (rest, downstream env s)
  ]

  -- A message that was sent as an envelope is pushed downstream, and what follows it is left.
  pub socket_recv_lem :
      (downstream : Pusher EnvelopedMessage S) (env : EnvelopedMessage) (rest : List Frame) (s : S)
      → socket_recv downstream (send_enveloped_msg env ++ rest) s ≡ some (rest, downstream env s)
  unfolding socket_recv
  socket_recv_lem downstream env rest s =
      rw (socket_recv, recv_enveloped_msg-send_enveloped_msg env rest) refl

-- `push` of a `SocketSend`.
unfoldable pub socket_send : Pusher EnvelopedMessage (List Frame)
socket_send env frames = frames ++ send_enveloped_msg env
