-- ===== src/Kvs/Client/Commit.antt =====
-- A read committed client and a server thread: nothing is visible before END, and then all is.
use lattice_flow.Base.{
  ◌≡◌, refl, subst, ◌∙◌, ap, ℤ, int_eq, Option, none, some, List, [], ◌∷◌, arith, ◌==◌, inl, inr,
  Bool-cases,
}
use lattice_flow.Std.Assoc.{Assoc, find, assign}
use lattice_flow.Std.UnorderedMap.{IsDistinct, assign-IsDistinct}
use lattice_flow.Std.Lexicographic.{Bytes, bytes_eq}
use lattice_flow.Lattices.MapLattice
use lattice_flow.Kvs.Message.{Key, Value, Request}
use lattice_flow.Kvs.Server.{
  State, Database, TimestampedStringLattice, process_request, respond, flush, put_pair, put_pairs,
  to_int, succeeded,
}
use lattice_flow.Kvs.Server.Put.{last_write, register, put_pair-last_write}
use lattice_flow.Kvs.Server.Gossip.{IsFlushed, process_request-put}
use lattice_flow.Kvs.Client.{Command, begin, get, put, end, other, Line, execute, repl}
use lattice_flow.Kvs.Client.Session.{Serve, stored, no_timestamp}
use lattice_flow.Kvs.Client.Session.Runs.{All, repl_keeps}
use lattice_flow.Kvs.Client.ReadCommitted
use lattice_flow.Kvs.Client.ReadCommitted.{RcClient, rc_client, new_client}

-- A thread answers each request that the broker brings to it; an exception ends it.
unfoldable pub serve_thread : Serve State
serve_thread request state = elim (process_request request state) [
  | none ↦ none
  | some (t, response, sent) ↦ some (response, t)
]

abbrev pub Uncommitted : Command → Type 0
Uncommitted begin = Unit
Uncommitted (get k) = Unit
Uncommitted (put k v) = Unit
Uncommitted end = ⊥
Uncommitted other = Unit

-- The thread holds this database, and has gossiped all its updates.
record Holds (db : Database) (state : State) : Type 0 where
  kvs : state.kvs ≡ db
  flushed : IsFlushed state

keep-Holds :
    (db : Database) (command : Command) (input : Bytes) (c c' : RcClient) (s s' : State)
    (out : List Line)
    → Uncommitted command
    → Holds db s
    → execute (rc_client serve_thread) input command c s ≡ some (out, c', s')
    → Holds db s'
unfolding ReadCommitted.begin ReadCommitted.get ReadCommitted.put serve_thread process_request
    respond flush
keep-Holds db begin input c c' s s' out a h run = ground arith
keep-Holds db (get j) input c c' s s' out a h run = ground arith
keep-Holds db (put j w) input c c' s s' out a h run = ground arith
keep-Holds db end input c c' s s' out a h run = absurd a
keep-Holds db other input c c' s s' out a h run = ground arith

-- Read committed: at a thread that has gossiped all its updates, what a client does up to the end of
-- its transaction leaves the database as it is, so no other client can read what it has written.
pub nothing_visible :
    (inputs : List Bytes) (c c' : RcClient) (s s' : State) (out : List Line)
    → All Uncommitted inputs
    → IsFlushed s
    → repl (rc_client serve_thread) inputs c s ≡ some (out, c', s')
    → s'.kvs ≡ s.kvs
nothing_visible inputs c c' s s' out a f run =
    (repl_keeps (rc_client serve_thread) Uncommitted (λ c1 s1. Holds s.kvs s1) (keep-Holds s.kvs)
      inputs c c' s s' out a (record { kvs = refl; flushed = f }) run).kvs

-- What a key holds after a write that may be there.
abbrev pub written :
    ℤ → Option Value → Option TimestampedStringLattice → Option TimestampedStringLattice
written ts none old = old
written ts (some v) old = some (register (last_write (to_int ts) v old))

-- A batch of pairs with distinct keys writes each of them once, and no other key.
pub put_pairs-written :
    (ts : ℤ) (pairs : Assoc Key Value) (state : State) (j : Key)
    → IsDistinct pairs
    → MapLattice.get (put_pairs ts pairs state).kvs j
      ≡ written ts (find j pairs) (MapLattice.get state.kvs j)
unfolding put_pairs find
put_pairs-written ts [] state j d = refl
put_pairs-written ts ((k, v) ∷ pairs) state j (absent, d) = elim (Bool-cases (k == j)) [
  | inl here ↦
      let same : k ≡ j = (bytes_eq.beq_iff k j).0 here in
      put_pairs-written ts pairs (put_pair ts k v state) j d
      ∙ rw (here, ← same, absent, put_pair-last_write ts k v state k, (bytes_eq.beq_iff k k).1 refl)
          refl
  | inr there ↦
      put_pairs-written ts pairs (put_pair ts k v state) j d
      ∙ rw (there, put_pair-last_write ts k v state j, there) refl
]

serve_put :
    (ts : ℤ) (pairs : List (Key × Value)) (s : State)
    → IsFlushed s
    → (t : State) × (serve_thread (Request.put ts pairs) s ≡ some (succeeded, t))
      × IsFlushed t
      × (t.kvs ≡ (put_pairs ts pairs s).kvs)
unfolding serve_thread
serve_put ts [] s f =
    (s, unfold process_request respond flush put_pairs in ground arith, f, unfold put_pairs in refl)
serve_put ts (p ∷ ps) s f =
    let (t, g, run, sent) = process_request-put ts p ps s f in
    (t, rw (run, serve_thread) refl, sent.flushed, sent.stored)

end_lem :
    (c : RcClient) (s t : State)
    → serve_thread (Request.put c.current_timestamp c.write_buffer) s ≡ some (succeeded, t)
    → ReadCommitted.end serve_thread c s ≡ some ([], record c { write_buffer = [] }, t)
unfolding ReadCommitted.end stored
end_lem c s t h = ground arith

-- A transaction commits as a whole: END, of a client whose buffer holds no key twice, sent to a
-- thread that has gossiped all its updates, reports no error. Of every key it leaves there what a
-- last-writer-wins register holds after the write of the value in the buffer, if there is one, and
-- otherwise what was there; and the buffer is empty.
pub end_commits :
    (c : RcClient) (s : State)
    → IsFlushed s
    → IsDistinct c.write_buffer
    → (t : State) × (ReadCommitted.end serve_thread c s
        ≡ some ([], record c { write_buffer = [] }, t))
      × IsFlushed t
      × ((j : Key)
          → MapLattice.get t.kvs j
            ≡ written c.current_timestamp (find j c.write_buffer) (MapLattice.get s.kvs j))
end_commits c s f d =
    let (t, run, flushed, same) = serve_put c.current_timestamp c.write_buffer s f in
    (
      t,
      end_lem c s t run,
      flushed,
      λ j.
          ap (λ (m : Database). MapLattice.get m j) same
          ∙ put_pairs-written c.current_timestamp c.write_buffer s j d,
    )

anything : (lines : List Bytes) → All (λ command. Unit {0}) lines
anything [] = tt
anything (l ∷ ls) = (tt, anything ls)

module _ {S : Type 0} (serve : Serve S) where
  IsKept : RcClient → S → Type 0
  IsKept c s = IsDistinct c.write_buffer

  keep-IsKept :
      (command : Command) (input : Bytes) (c c' : RcClient) (s s' : S) (out : List Line)
      → Unit {0}
      → IsKept c s
      → execute (rc_client serve) input command c s ≡ some (out, c', s')
      → IsKept c' s'
  unfolding ReadCommitted.begin ReadCommitted.get ReadCommitted.put ReadCommitted.end IsKept
  keep-IsKept begin input c c' s s' out u d run =
      subst IsDistinct (let e : c.write_buffer ≡ c'.write_buffer = ground arith in e) d
  keep-IsKept (get j) input c c' s s' out u d run =
      subst IsDistinct (let e : c.write_buffer ≡ c'.write_buffer = ground arith in e) d
  keep-IsKept (put j w) input c c' s s' out u d run =
      elim (Bool-cases (int_eq c.current_timestamp no_timestamp)) [
        | inl closed ↦
            subst IsDistinct (let e : c.write_buffer ≡ c'.write_buffer = ground arith in e) d
        | inr open_now ↦
            subst IsDistinct
              (let e : assign j w c.write_buffer ≡ c'.write_buffer = ground arith in e)
              (assign-IsDistinct j w c.write_buffer d)
      ]
  keep-IsKept end input c c' s s' out u d run =
      subst IsDistinct (let e : [] ≡ c'.write_buffer = ground arith in e) tt
  keep-IsKept other input c c' s s' out u d run =
      subst IsDistinct (let e : c.write_buffer ≡ c'.write_buffer = ground arith in e) d

  -- The buffer of a client that starts new never holds a key twice, whatever the server answers.
  pub write_buffer-IsDistinct :
      (inputs : List Bytes) (c : RcClient) (s s' : S) (out : List Line)
      → repl (rc_client serve) inputs new_client s ≡ some (out, c, s')
      → IsDistinct c.write_buffer
  unfolding IsKept
  write_buffer-IsDistinct inputs c s s' out run =
      repl_keeps (rc_client serve) (λ command. Unit {0}) IsKept keep-IsKept inputs new_client c s s'
        out (anything inputs) tt run
