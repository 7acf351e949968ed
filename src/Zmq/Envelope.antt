-- ===== src/Zmq/Envelope.antt =====
-- src/zmq_util/zmq_util.cc: multipart messages and envelopes over a socket. A socket is the frames
-- that are yet to be received, and `none` means that a `recv` waits for ever. Text and messages are
-- both bytes, so the conversions between them do nothing.
use lattice_flow.Base.{
  ℕ, suc, ◌+◌, ◌-◌, ◌≡◌, refl, Bool, true, false, not, Option, none, some, List, [], ◌∷◌, ◌++◌,
  arith, length, nat_beq, if◌then◌else◌, pop_back, pop_back-snoc,
}
use lattice_flow.Std.Lexicographic.{Bytes}
use lattice_flow.Zmq.Message.{EnvelopedMessage}

-- A frame, and whether `ZMQ_SNDMORE` was set for it.
pub record Frame : Type 0 where
  pub content : Bytes
  pub more : Bool

-- The loop of `send_msgs`, at the index `i` of `size` messages.
unfoldable pub send_from : ℕ → ℕ → List Bytes → List Frame
send_from i size [] = []
send_from i size (m ∷ ms) =
    record { content = m; more = not (nat_beq i (size - 1)) } ∷ send_from (i + 1) size ms

unfoldable pub send_msgs : List Bytes → List Frame
send_msgs msgs = send_from 0 (length msgs) msgs

-- `ZMQ_RCVMORE` is the flag of the frame that was received last.
unfoldable pub recv_msgs : List Frame → Option (List Bytes × List Frame)
recv_msgs [] = none
recv_msgs (f ∷ fs) =
    let after = recv_msgs fs in
    if f.more
    then elim after [ none ↦ none | some (ms, rest) ↦ some (f.content ∷ ms, rest) ]
    else some (f.content ∷ [], fs)

unfoldable pub recv_enveloped_msg : List Frame → Option (EnvelopedMessage × List Frame)
recv_enveloped_msg fs = elim (recv_msgs fs) [
  | none ↦ none
  | some (msgs, rest) ↦ elim (pop_back msgs) [
    | none ↦ none
    | some (msg, ids) ↦ some (record { cid = record { connection_ids = ids }; msg = msg }, rest)
  ]
]

-- The loop of `send_enveloped_msg` over the connection ids.
unfoldable pub send_ids : List Bytes → List Frame
send_ids [] = []
send_ids (m ∷ ms) = record { content = m; more = true } ∷ send_ids ms

unfoldable pub send_enveloped_msg : EnvelopedMessage → List Frame
send_enveloped_msg env =
    send_ids env.cid.connection_ids ++ record { content = env.msg; more = false } ∷ []

recv-send_from :
    (i size : ℕ) (m : Bytes) (ms : List Bytes) (rest : List Frame)
    → i + suc (length ms) ≡ size
    → recv_msgs (send_from i size (m ∷ ms) ++ rest) ≡ some (m ∷ ms, rest)
unfolding recv_msgs send_from
recv-send_from i size m [] rest h = ground arith
recv-send_from i size m (n ∷ ms) rest h = ground (arith, recv-send_from (i + 1) size n ms rest)

-- A multipart message of at least one part is received as it was sent, and what follows it is left.
pub recv_msgs-send_msgs :
    (m : Bytes) (ms : List Bytes) (rest : List Frame)
    → recv_msgs (send_msgs (m ∷ ms) ++ rest) ≡ some (m ∷ ms, rest)
unfolding send_msgs
recv_msgs-send_msgs m ms rest = recv-send_from 0 (suc (length ms)) m ms rest (omega arith)

recv-send_ids :
    (ids : List Bytes) (msg : Bytes) (rest : List Frame)
    → recv_msgs ((send_ids ids ++ record { content = msg; more = false } ∷ []) ++ rest)
      ≡ some (ids ++ msg ∷ [], rest)
unfolding recv_msgs send_ids
recv-send_ids [] msg rest = refl
recv-send_ids (m ∷ ids) msg rest = ground (arith, recv-send_ids ids msg rest)

-- An enveloped message is received as it was sent, and what follows it is left.
pub recv_enveloped_msg-send_enveloped_msg :
    (env : EnvelopedMessage) (rest : List Frame)
    → recv_enveloped_msg (send_enveloped_msg env ++ rest) ≡ some (env, rest)
unfolding recv_enveloped_msg send_enveloped_msg
recv_enveloped_msg-send_enveloped_msg env rest =
    rw
      (
        recv_enveloped_msg,
        recv-send_ids env.cid.connection_ids env.msg rest,
        pop_back-snoc env.cid.connection_ids env.msg,
      )
      refl
