-- ===== src/Zmq/Proto.antt =====
-- The templates of src/zmq_util/zmq_util.h, which src/key_value_stores/zmq_util.h has as well, with
-- send_string and recv_string of zmq_util.cc: messages of one part. How protocol buffers are laid out
-- in bytes is a parameter.
use lattice_flow.Base.{◌≡◌, ap, false, Option, none, some, List, [], ◌∷◌, ◌++◌}
use lattice_flow.Std.Lexicographic.{Bytes}
use lattice_flow.Zmq.Envelope.{Frame}

-- `SerializeToString`, and what a message holds after `ParseFromString`: what was serialized is
-- parsed as it was.
pub record Codec {ℓ} (Proto : Type ℓ) : Type ℓ where
  pub serialize : Proto → Bytes
  pub parse : Bytes → Proto
  pub parse-serialize : (p : Proto) → parse (serialize p) ≡ p

-- A socket takes a string as a frame that has none after it.
unfoldable pub send_string : Bytes → List Frame → List Frame
send_string s frames = frames ++ record { content = s; more = false } ∷ []

-- `none`: it waits for a message.
unfoldable pub recv_string : List Frame → Option (Bytes × List Frame)
recv_string [] = none
recv_string (f ∷ frames) = some (f.content, frames)

module _ {ℓ} {Proto : Type ℓ} (𝓬 : Codec Proto) where
  unfoldable pub proto_to_message : Proto → Bytes
  proto_to_message proto = 𝓬.serialize proto

  unfoldable pub message_to_proto : Bytes → Proto
  message_to_proto msg = 𝓬.parse msg

  unfoldable pub send_proto : Proto → List Frame → List Frame
  send_proto proto frames = frames ++ record { content = proto_to_message proto; more = false } ∷ []

  unfoldable pub recv_proto : List Frame → Option (Proto × List Frame)
  recv_proto [] = none
  recv_proto (f ∷ frames) = some (message_to_proto f.content, frames)

  pub message_to_proto-proto_to_message :
      (proto : Proto) → message_to_proto (proto_to_message proto) ≡ proto
  unfolding message_to_proto proto_to_message
  message_to_proto-proto_to_message proto = 𝓬.parse-serialize proto

  -- A message that was sent over a socket that held none is the one that is received.
  pub recv_proto-send_proto : (proto : Proto) → recv_proto (send_proto proto []) ≡ some (proto, [])
  unfolding recv_proto send_proto
  recv_proto-send_proto proto = ap (λ p. some (p, [])) (message_to_proto-proto_to_message proto)
