-- ===== src/Tests/ClientRuns.antt =====
-- Sessions of the clients: src/key_value_stores.
use lattice_flow.Base.{ℕ, ◌+◌, ◌≡◌, refl, true, List, [], ◌∷◌, some, pos}
use lattice_flow.Std.Assoc.{find, assign, add, modify}
use lattice_flow.Std.UnorderedMap
use lattice_flow.Std.UnorderedMap.{IsDistinct}
use lattice_flow.Std.Decimal.{to_string, stoi}
use lattice_flow.Std.Lexicographic.{Bytes, bytes_eq}
use lattice_flow.Lattices.MapLattice
use lattice_flow.Kvs.Message.{Key, Value}
use lattice_flow.Kvs.Server
use lattice_flow.Kvs.Server.{
  State, respond, flush, process_request, begin_timestamp, to_int, succeeded,
}
use lattice_flow.Kvs.Server.Gossip.{IsFlushed}
use lattice_flow.Kvs.Client
use lattice_flow.Kvs.Client.{
  Command, codes, split, dispatch, parse, repl, text, first_begin, begin, get, put, end,
}
use lattice_flow.Kvs.Client.Session.{Serve, got, value_of, timestamp_of, began}
use lattice_flow.Kvs.Client.Session.Runs.{All}
use lattice_flow.Kvs.Client.Commands.{show, parse-show}
use lattice_flow.Kvs.Client.ReadCommitted
use lattice_flow.Kvs.Client.ReadCommitted.{RcClient, new_client, rc_client}
use lattice_flow.Kvs.Client.ItemCut
use lattice_flow.Kvs.Client.ItemCut.{IciClient, ici_client}
use lattice_flow.Kvs.Client.Isolation.{Spares, item_cut_isolation, read_own_writes}
use lattice_flow.Kvs.Client.Commit.{
  serve_thread, Uncommitted, written, nothing_visible, end_commits,
}

abbrev k1 : Key
k1 = codes "a"

abbrev v1 : Value
v1 = codes "x"

abbrev v2 : Value
v2 = codes "y"

parse-show_example : parse (show (put k1 v1)) ≡ put k1 v1
parse-show_example = parse-show (put k1 v1) ((refl, tt), (refl, tt))

-- A server whose answers differ from one request to the next.
abbrev fickle : Serve ℕ
fickle request n =
    some (record { succeed = true; value = some (n ∷ []); timestamp = some (pos n) }, n + 1)

abbrev lines : List Bytes
lines = codes "GET b" ∷ codes "PUT b y" ∷ codes "HELP" ∷ []

lines-Spares : All (Spares k1) lines
unfolding parse dispatch split bytes_eq
lines-Spares = (tt, (refl, (tt, tt)))

abbrev cut : IciClient
cut = record { current_timestamp = pos 1; write_buffer = []; read_buffer = [] }

abbrev cut_read : IciClient
cut_read = record { current_timestamp = pos 1; write_buffer = []; read_buffer = (k1, 8 ∷ []) ∷ [] }

abbrev cut_later : IciClient
cut_later = record {
  current_timestamp = pos 1;
  write_buffer = (codes "b", v2) ∷ [];
  read_buffer = (k1, 8 ∷ []) ∷ (codes "b", 9 ∷ []) ∷ [];
}

cut_reads : ItemCut.get fickle k1 cut 8 ≡ some (text (8 ∷ []) ∷ [], cut_read, 9)
unfolding ItemCut.get ItemCut.remember got value_of find assign add
cut_reads = refl

cut_goes_on :
    repl (ici_client fickle) lines cut_read 9
    ≡ some
        (text (9 ∷ []) ∷ Client.invalid_command (codes "HELP") ∷ Client.usage ∷ [], cut_later, 10)
unfolding repl parse dispatch split bytes_eq ItemCut.get ItemCut.put ItemCut.remember got value_of
    find assign add modify
cut_goes_on = refl

item_cut_isolation_example :
    ItemCut.get fickle k1 cut_later 10 ≡ some (text (8 ∷ []) ∷ [], cut_later, 10)
item_cut_isolation_example =
    item_cut_isolation fickle k1 (8 ∷ []) lines cut cut_read cut_later 8 9 10
      (text (9 ∷ []) ∷ Client.invalid_command (codes "HELP") ∷ Client.usage ∷ []) lines-Spares
      cut_reads cut_goes_on

abbrev opened : RcClient
opened = record { current_timestamp = pos 2; write_buffer = [] }

abbrev buffered : RcClient
buffered = record { current_timestamp = pos 2; write_buffer = (k1, v1) ∷ [] }

abbrev buffered_later : RcClient
buffered_later = record {
  current_timestamp = pos 2;
  write_buffer = (k1, v1) ∷ (codes "b", v2) ∷ [];
}

puts_silently : ReadCommitted.put fickle k1 v1 opened 5 ≡ some ([], buffered, 5)
unfolding ReadCommitted.put find assign add
puts_silently = refl

puts_again :
    repl (rc_client fickle) lines buffered 5
    ≡ some (
      text (5 ∷ []) ∷ Client.invalid_command (codes "HELP") ∷ Client.usage ∷ [],
      buffered_later,
      6,
    )
unfolding repl parse dispatch split bytes_eq ReadCommitted.get ReadCommitted.put got value_of find
    assign add modify
puts_again = refl

read_own_writes_example :
    ReadCommitted.get fickle k1 buffered_later 6 ≡ some (text v1 ∷ [], buffered_later, 6)
read_own_writes_example =
    read_own_writes fickle k1 v1 lines opened buffered buffered_later 5 5 6
      (text (5 ∷ []) ∷ Client.invalid_command (codes "HELP") ∷ Client.usage ∷ []) lines-Spares
      puts_silently puts_again

-- A thread that answers a session with a transaction that is not ended.
abbrev thread : State
thread = Server.init 2

thread-IsFlushed : IsFlushed thread
unfolding Server.init
thread-IsFlushed = record { no_changes = refl; no_updates = refl }

abbrev session : List Bytes
session = codes "BEGIN TRANSACTION" ∷ codes "GET a" ∷ codes "PUT a x" ∷ []

session-Uncommitted : All Uncommitted session
unfolding parse dispatch split bytes_eq
session-Uncommitted = (tt, (tt, (tt, tt)))

abbrev thread_later : State
thread_later = record thread { local_timestamp = 1 }

session_lem :
    repl (rc_client serve_thread) session new_client thread
    ≡ some (Client.number (pos 2) ∷ Client.error ∷ [], buffered, thread_later)
unfolding repl parse dispatch split bytes_eq ReadCommitted.begin ReadCommitted.get ReadCommitted.put
    got value_of find assign add modify serve_thread process_request respond flush Server.init
    MapLattice.init MapLattice.get UnorderedMap.empty begin_timestamp began timestamp_of to_int
    to_string stoi
session_lem = refl

nothing_visible_example : thread_later.kvs ≡ thread.kvs
nothing_visible_example =
    nothing_visible session new_client buffered thread thread_later
      (Client.number (pos 2) ∷ Client.error ∷ []) session-Uncommitted thread-IsFlushed session_lem

buffered-IsDistinct : IsDistinct buffered.write_buffer
unfolding find
buffered-IsDistinct = (refl, tt)

end_commits_example :
    (t : State) × (ReadCommitted.end serve_thread buffered thread ≡ some ([], opened, t))
    × IsFlushed t
    × ((j : Key)
        → MapLattice.get t.kvs j
          ≡ written (pos 2) (find j buffered.write_buffer) (MapLattice.get thread.kvs j))
end_commits_example = end_commits buffered thread thread-IsFlushed buffered-IsDistinct
