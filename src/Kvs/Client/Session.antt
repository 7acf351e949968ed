-- ===== src/Kvs/Client/Session.antt =====
-- What the three clients share: a request that waits for its answer, and how answers are read.
pub mod Runs
use lattice_flow.Base.{ℤ, pos, negsuc, Bool, Option, none, some, List, [], ◌∷◌, if◌then◌else◌}
use lattice_flow.Kvs.Message.{Value, Request, Response, begin_transaction}
use lattice_flow.Kvs.Server.{to_int}
use lattice_flow.Kvs.Client.{Line, number, text, error}

-- `send_proto` and then `recv_proto`, over whatever is at the other end of the socket. `none`: no
-- answer ever comes.
abbrev pub Serve : Type 0 → Type 0
Serve S = Request → S → Option (Response × S)

-- -1
abbrev pub no_timestamp : ℤ
no_timestamp = negsuc 0

-- A field that is not set reads as the default of its type; the timestamp becomes an `int`.
unfoldable pub timestamp_of : Response → ℤ
timestamp_of response = to_int (elim response.timestamp [ none ↦ pos 0 | some ts ↦ ts ])

unfoldable pub value_of : Response → Value
value_of response = elim response.value [ none ↦ [] | some v ↦ v ]

-- What `begin` writes, and `current_timestamp_` after it.
unfoldable pub began : Response → ℤ → List Line × ℤ
began response current =
    let ts = timestamp_of response in
    if response.succeed then (number ts ∷ [], ts) else (error ∷ [], current)

-- What `get` writes.
unfoldable pub got : Response → List Line
got response = (if response.succeed then text (value_of response) else error) ∷ []

-- What `put` and `end` write.
unfoldable pub stored : Response → List Line
stored response = if response.succeed then [] else error ∷ []
