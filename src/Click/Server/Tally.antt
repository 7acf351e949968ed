-- ===== src/Click/Server/Tally.antt =====
-- What the example server comes to: one sum and one count, whoever the messages are from.
use lattice_flow.Base.{
  ℕ, ◌+◌, ◌≤◌, ◌≡◌, refl, Option, none, some, List, [], ◌∷◌, ◌++◌, nat_beq, leb, if◌then◌else◌,
}
use lattice_flow.Std.Decimal.{to_string, stoi, int_max}
use lattice_flow.Zmq.Message.{ConnectionId, EnvelopedMessage}
use lattice_flow.Zmq.Envelope.{Frame}
use lattice_flow.Click.Forward.{dup_push}
use lattice_flow.Click.Socket.{socket_send}
use lattice_flow.Click.Server.{Server, num_workers, take_out, expire, from_workers, in_tee}

-- What happens to a server: a message of a client, the reply of a worker, or the end of one of the
-- delays.
pub data Event : Type 0 where
  request : EnvelopedMessage → Event
  reply : EnvelopedMessage → Event
  delay : ℕ → Event

abbrev pub happen : Event → Option Server → Option Server
happen (request env) s = in_tee env s
happen (reply env) s = from_workers env s
happen (delay n) s = expire n s

abbrev pub happen_all : List Event → Option Server → Option Server
happen_all [] s = s
happen_all (event ∷ events) s = happen_all events (happen event s)

-- The numbers that are summed up, the replies since the last fourth one, the connections for which
-- there is a delay, the sums that were sent, with the connections that they were sent to, and the
-- messages that were passed on to the workers.
pub record Tally : Type 0 where
  pub pending : List ℕ
  pub count : ℕ
  pub waiting : List ConnectionId
  pub sent : List (ConnectionId × ℕ)
  pub asked : List EnvelopedMessage

abbrev pub new_tally : Tally
new_tally = record { pending = []; count = 0; waiting = []; sent = []; asked = [] }

abbrev pub sum : List ℕ → ℕ
sum [] = 0
sum (x ∷ xs) = x + sum xs

-- `none`: the sum is no `int`.
abbrev pub flush_to : ConnectionId → Tally → Option Tally
flush_to cid t =
    if leb (sum t.pending) int_max
    then some (record t { pending = []; sent = t.sent ++ (cid, sum t.pending) ∷ [] })
    else none

abbrev pub number : EnvelopedMessage → ℕ
number env = elim (stoi env.msg) [ none ↦ 0 | some n ↦ n ]

-- What a counted reply comes to.
abbrev pub count_up : ConnectionId → Tally → Option Tally
count_up cid t =
    if nat_beq (t.count + 1) num_workers
    then flush_to cid (record t { count = 0 })
    else some (record t { count = t.count + 1 })

abbrev pub count_reply : EnvelopedMessage → Tally → Option Tally
count_reply env t = count_up env.cid (record t { pending = t.pending ++ number env ∷ [] })

abbrev pub count_delay : ℕ → Tally → Option Tally
count_delay n t = elim (take_out n t.waiting) [
  | none ↦ some t
  | some (cid, rest) ↦ flush_to cid (record t { waiting = rest })
]

abbrev pub tally : Event → Tally → Option Tally
tally (request env) t =
    some (record t { waiting = t.waiting ++ env.cid ∷ []; asked = t.asked ++ env ∷ [] })
tally (reply env) t = count_reply env t
tally (delay n) t = count_delay n t

abbrev pub tally_all : List Event → Tally → Option Tally
tally_all [] t = some t
tally_all (event ∷ events) t = elim (tally event t) [ none ↦ none | some u ↦ tally_all events u ]

-- Each reply is an `int` in decimal, as the workers write it.
abbrev pub Answers : List Event → Type 0
Answers [] = Unit
Answers (request env ∷ events) = Answers events
Answers (reply env ∷ events) = ((n : ℕ) × (n ≤ int_max) × (env.msg ≡ to_string n)) × Answers events
Answers (delay n ∷ events) = Answers events

-- The frames of the sums.
abbrev pub frames : List (ConnectionId × ℕ) → List Frame → List Frame
frames [] fs = fs
frames ((cid, n) ∷ sums) fs = frames sums (socket_send (record { cid = cid; msg = to_string n }) fs)

pub frames-snoc :
    (sums : List (ConnectionId × ℕ)) (cid : ConnectionId) (n : ℕ) (fs : List Frame)
    → frames (sums ++ (cid, n) ∷ []) fs
      ≡ socket_send (record { cid = cid; msg = to_string n }) (frames sums fs)
frames-snoc [] cid n fs = refl
frames-snoc ((c, m) ∷ sums) cid n fs =
    frames-snoc sums cid n (socket_send (record { cid = c; msg = to_string m }) fs)

-- The frames of the questions, one to each worker.
abbrev pub questions : List EnvelopedMessage → List Frame → List Frame
questions [] fs = fs
questions (env ∷ envs) fs = questions envs (dup_push num_workers socket_send env fs)

pub questions-snoc :
    (envs : List EnvelopedMessage) (env : EnvelopedMessage) (fs : List Frame)
    → questions (envs ++ env ∷ []) fs ≡ dup_push num_workers socket_send env (questions envs fs)
questions-snoc [] env fs = refl
questions-snoc (e ∷ envs) env fs = questions-snoc envs env (dup_push num_workers socket_send e fs)
