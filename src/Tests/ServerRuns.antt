-- ===== src/Tests/ServerRuns.antt =====
-- The example server with one client, and with two: src/click/example_server.cc.
use mathlib.Core.Option.{map}
use lattice_flow.Base.{◌≡◌, refl, some, List, [], ◌∷◌, arith}
use lattice_flow.Std.Decimal.{to_string}
use lattice_flow.Zmq.Message.{EnvelopedMessage}
use lattice_flow.Click.Socket.{socket_send}
use lattice_flow.Click.Server.{Server, length_plus_i, new_server}
use lattice_flow.Click.Server.Tally.{
  Event, request, reply, delay, happen_all, Tally, new_tally, tally_all,
}
use lattice_flow.Click.Server.Refines.{Gives}
use lattice_flow.Click.Server.Replies.{happen_all-tally_all}
use lattice_flow.Click.Server.Round.{one_round, one_round-router}

-- "hi" of one client and "hello" of the other.
abbrev hi_a : EnvelopedMessage
hi_a = record { cid = record { connection_ids = (1 ∷ []) ∷ [] }; msg = 104 ∷ 105 ∷ [] }

abbrev hello_b : EnvelopedMessage
hello_b = record {
  cid = record { connection_ids = (2 ∷ []) ∷ [] };
  msg = 104 ∷ 101 ∷ 108 ∷ 108 ∷ 111 ∷ [];
}

-- Three answers to the one and one to the other, and the end of both delays, the later one first.
abbrev two_clients : List Event
two_clients =
    request hi_a
    ∷ request hello_b
    ∷ reply (length_plus_i 0 hi_a)
    ∷ reply (length_plus_i 1 hi_a)
    ∷ reply (length_plus_i 2 hi_a)
    ∷ reply (length_plus_i 0 hello_b)
    ∷ delay 1
    ∷ delay 0
    ∷ []

happen_all-tally_all_example :
    Gives (happen_all two_clients (some new_server)) (tally_all two_clients new_tally)
unfolding length_plus_i
happen_all-tally_all_example = happen_all-tally_all two_clients (
  (2, omega arith, refl),
  ((3, omega arith, refl), ((4, omega arith, refl), ((5, omega arith, refl), tt))),
)

-- The other client is sent the sum of all four, and then each client a zero.
two_clients_sent :
    map (λ (t : Tally). t.sent) (tally_all two_clients new_tally)
    ≡ some ((hello_b.cid, 14) ∷ (hello_b.cid, 0) ∷ (hi_a.cid, 0) ∷ [])
unfolding length_plus_i lattice_flow.Std.Decimal.stoi to_string
two_clients_sent = refl

one_round-router_example :
    (s : Server) × (happen_all (one_round hi_a 2 0 3 1) (some new_server) ≡ some s)
    × (s.router
        ≡ socket_send
            (record { cid = hi_a.cid; msg = to_string 0 })
            (socket_send (record { cid = hi_a.cid; msg = to_string 14 }) []))
one_round-router_example = one_round-router hi_a 2 0 3 1 (omega arith)
