-- ===== src/Click/Server.antt =====
-- src/click/example_server.cc: the elements of src/click and the sockets, as the program composes them.
-- Its `std::map`s have connection ids for keys, with their `operator<`.
use mathlib.Core.Option.{map}
use lattice_flow.Base.{
  ℕ, zero, suc, ◌+◌, ◌≡◌, leb, Option, none, some, List, [], ◌∷◌, ◌++◌, length, nat_beq,
  if◌then◌else◌,
}
use lattice_flow.Std.Assoc.{Assoc}
use lattice_flow.Std.OrderedMap.{find_key, set_key, erase_key}
use lattice_flow.Std.Decimal.{to_string, stoi, int_max}
use lattice_flow.Std.Lexicographic.{Bytes}
use lattice_flow.PushPull.Element.{Pusher}
use lattice_flow.Zmq.Message.{ConnectionId, EnvelopedMessage, id_lt, clone}
use lattice_flow.Zmq.Envelope.{Frame}
use lattice_flow.Click.Forward.{map_push, dup_push, tee_push}
use lattice_flow.Click.Socket.{socket_send}
pub mod Tally
pub mod OneEntry
pub mod Refines
pub mod Elements
pub mod Replies
pub mod Round

abbrev pub num_workers : ℕ
num_workers = 4

-- `groups_` of the group by, `counts_` of the dedup, the values for which the timer waits, and what
-- was sent over the sockets `router` and `source`.
pub record Server : Type 0 where
  pub groups : Assoc ConnectionId (List ℕ)
  pub counts : Assoc ConnectionId ℕ
  pub timers : List ConnectionId
  pub router : List Frame
  pub source : List Frame

abbrev pub new_server : Server
new_server = record { groups = []; counts = []; timers = []; router = []; source = [] }

-- `none`: an exception has ended the program, or the sum of an `int` has no defined value.
abbrev pub Element : Type 0 → Type 0
Element T = Pusher T (Option Server)

-- An element that changes its part of the state.
abbrev pub stateful : {T : Type 0} → (T → Server → Server) → Element T
stateful f x none = none
stateful f x (some s) = some (f x s)

-- `std::accumulate` over `int`s that are not negative; `none`: it overflows.
abbrev pub accumulate : List ℕ → ℕ → Option ℕ
accumulate [] n = some n
accumulate (x ∷ xs) n =
    let after = accumulate xs (n + x) in if leb (n + x) int_max then after else none

-- `none`: `std::stoi` throws.
unfoldable pub make_group_evnmsg : EnvelopedMessage → Option (ConnectionId × ℕ)
make_group_evnmsg env = elim (stoi env.msg) [ none ↦ none | some i ↦ some (env.cid, i) ]

unfoldable pub extract_envmsg_cid : EnvelopedMessage → ConnectionId
extract_envmsg_cid env = env.cid

unfoldable pub reduce_group : ConnectionId × List ℕ → Option EnvelopedMessage
reduce_group (cid, xs) = elim (accumulate xs 0) [
  | none ↦ none
  | some sum ↦ some (record { cid = cid; msg = to_string sum })
]

-- The answer of worker `i` to a message.
unfoldable pub length_plus_i : ℕ → EnvelopedMessage → EnvelopedMessage
length_plus_i i env = record { cid = env.cid; msg = to_string (length env.msg + i) }

-- `out`
unfoldable pub out : Element EnvelopedMessage
out = stateful (λ env s. record s { router = socket_send env s.router })

unfoldable pub reduce : Element (ConnectionId × List ℕ)
reduce group s = elim (reduce_group group) [ none ↦ none | some env ↦ out env s ]

-- The members of a group that is there.
abbrev pub held : ConnectionId → Server → List ℕ
held cid s = elim (find_key id_lt cid s.groups) [ none ↦ [] | some xs ↦ xs ]

abbrev pub erase_group : ConnectionId → Server → Server
erase_group cid s = record s { groups = erase_key id_lt cid s.groups }

-- `group_by.push()` and `group_by.end()`
unfoldable pub group_by_push : Element (ConnectionId × ℕ)
group_by_push =
    stateful (λ p s. record s { groups = set_key id_lt p.0 (held p.0 s ++ p.1 ∷ []) s.groups })

unfoldable pub group_by_end : Element ConnectionId
group_by_end cid none = none
group_by_end cid (some s) = elim (find_key id_lt cid s.groups) [
  | none ↦ reduce (cid, []) (some s)
  | some xs ↦ map (erase_group cid) (reduce (cid, xs) (some s))
]

abbrev pub set_count : ConnectionId → ℕ → Server → Server
set_count cid n s = record s { counts = set_key id_lt cid n s.counts }

abbrev pub erase_count : ConnectionId → Server → Server
erase_count cid s = record s { counts = erase_key id_lt cid s.counts }

-- `dedup`
unfoldable pub dedup : Element ConnectionId
dedup cid none = none
dedup cid (some s) = elim (find_key id_lt cid s.counts) [
  | none ↦ some (set_count cid 1 s)
  | some n ↦
      let counted = some (set_count cid (n + 1) s) in
      if nat_beq (n + 1) num_workers
      then map (erase_count cid) (group_by_end cid counted)
      else counted
]

-- `timer`, when a value is pushed and when a delay is over: that of any value, since the delays that are
-- found over together end in the order of the driver.
unfoldable pub timer : Element ConnectionId
timer = stateful (λ cid s. record s { timers = s.timers ++ cid ∷ [] })

abbrev pub take_out {ℓ} : {A : Type ℓ} → ℕ → List A → Option (A × List A)
take_out n [] = none
take_out zero (x ∷ xs) = some (x, xs)
take_out (suc n) (x ∷ xs) = elim (take_out n xs) [
  | none ↦ none
  | some (y, rest) ↦ some (y, x ∷ rest)
]

unfoldable pub expire : ℕ → Option Server → Option Server
expire n none = none
expire n (some s) = elim (take_out n s.timers) [
  | none ↦ some s
  | some (cid, rest) ↦ group_by_end cid (some (record s { timers = rest }))
]

-- `group_envmsg`, with the printing elements left out.
unfoldable pub group_envmsg : Element EnvelopedMessage
group_envmsg env s = elim (make_group_evnmsg env) [ none ↦ none | some p ↦ group_by_push p s ]

-- `from_workers_tee` and `in_tee`
unfoldable pub from_workers : Element EnvelopedMessage
from_workers =
    tee_push (map_push clone group_envmsg ∷ map_push clone (map_push extract_envmsg_cid dedup) ∷ [])

unfoldable pub to_workers : Element EnvelopedMessage
to_workers = stateful (λ env s. record s { source = socket_send env s.source })

unfoldable pub in_tee : Element EnvelopedMessage
in_tee = tee_push (
    map_push clone (map_push extract_envmsg_cid timer)
    ∷ dup_push num_workers (map_push clone to_workers)
    ∷ [])
