-- ===== src/Zmq/Message.antt =====
-- src/zmq_util/msg_util.cc, connection_id.cc and enveloped_message.cc: copies and orders. A
-- `zmq::message_t` is its bytes.
use lattice_flow.Base.{
  ℕ, zero, suc, ◌-◌, ◌≡◌, refl, Bool, false, ◌&&◌, List, [], ◌∷◌, arith, length, drop, take, ltb,
}
use lattice_flow.Std.Lexicographic.{Bytes, lexicographical_compare}

unfoldable pub message_lt : Bytes → Bytes → Bool
message_lt lhs rhs = lexicographical_compare ltb lhs rhs

pub record ConnectionId : Type 0 where
  pub connection_ids : List Bytes

unfoldable pub empty : ConnectionId
empty = record { connection_ids = [] }

-- Each message is copied.
unfoldable pub clone_messages : List Bytes → List Bytes
clone_messages [] = []
clone_messages (m ∷ ms) = m ∷ clone_messages ms

unfoldable pub clone_id : ConnectionId → ConnectionId
unfolding clone_messages
clone_id cid = record { connection_ids = clone_messages cid.connection_ids }

-- The range between two iterators of a vector.
abbrev range {ℓ} : {A : Type ℓ} → List A → ℕ → ℕ → List A
range xs first last = take (last - first) (drop first xs)

-- `operator<` passes the two `cbegin` of the left vector, and the two `cend` of the right one.
unfoldable pub id_lt : ConnectionId → ConnectionId → Bool
id_lt lhs rhs =
    let n = length rhs.connection_ids in
    lexicographical_compare message_lt (range lhs.connection_ids 0 0) (range rhs.connection_ids n n)

pub record EnvelopedMessage : Type 0 where
  pub cid : ConnectionId
  pub msg : Bytes

unfoldable pub clone : EnvelopedMessage → EnvelopedMessage
unfolding clone_id
clone env = record { cid = clone_id env.cid; msg = env.msg }

unfoldable pub enveloped_lt : EnvelopedMessage → EnvelopedMessage → Bool
enveloped_lt lhs rhs = id_lt lhs.cid rhs.cid && message_lt lhs.msg rhs.msg

clone_messages_lem : (ms : List Bytes) → clone_messages ms ≡ ms
unfolding clone_messages
clone_messages_lem [] = refl
clone_messages_lem (m ∷ ms) = ground (arith, clone_messages_lem ms)

-- A clone is the same message.
pub clone_lem : (env : EnvelopedMessage) → clone env ≡ env
unfolding clone
clone_lem env = ground (arith, clone_messages_lem env.cid.connection_ids)

drop-length : (ms : List Bytes) → drop (length ms) ms ≡ []
drop-length [] = refl
drop-length (m ∷ ms) = drop-length ms

take-nil : (n : ℕ) → take {A = Bytes} n [] ≡ []
take-nil zero = refl
take-nil (suc n) = refl

-- No connection id and no enveloped message is less than another, so that a `std::map` or `std::set`
-- takes all of them for the same key.
pub lt-false : (a b : EnvelopedMessage) → (id_lt a.cid b.cid ≡ false) × (enveloped_lt a b ≡ false)
unfolding id_lt enveloped_lt lexicographical_compare
lt-false a b =
    let n = length b.cid.connection_ids in
    rw (drop-length b.cid.connection_ids, take-nil (n - n)) (refl, refl)
