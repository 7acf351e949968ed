-- ===== src/Kvs/Client/Isolation.antt =====
-- What a transaction sees while it runs, whatever the server does.
use lattice_flow.Base.{
  ◌≡◌, ◌⊎◌, inl, inr, false, none, some, List, [], ◌∷◌, arith, ◌==◌, Option-cases,
}
use lattice_flow.Std.Assoc.{find, find-assign}
use lattice_flow.Std.Lexicographic.{Bytes, bytes_eq}
use lattice_flow.Kvs.Message.{Key, Value, Request}
use lattice_flow.Kvs.Client.{Command, begin, get, put, end, other, Line, text, execute, repl}
use lattice_flow.Kvs.Client.Session.{Serve, got, value_of}
use lattice_flow.Kvs.Client.Session.Runs.{All, repl_keeps}
use lattice_flow.Kvs.Client.ReadCommitted
use lattice_flow.Kvs.Client.ReadCommitted.{RcClient, rc_client}
use lattice_flow.Kvs.Client.ItemCut
use lattice_flow.Kvs.Client.ItemCut.{IciClient, ici_client}

-- A command that neither ends the transaction nor writes the key.
abbrev pub Spares : Key → Command → Type 0
Spares k begin = Unit
Spares k (get j) = Unit
Spares k (put j v) = (j == k) ≡ false
Spares k end = ⊥
Spares k other = Unit

module _ {S : Type 0} (serve : Serve S) where
  -- What a read of the key will give, with no question to the server.
  abbrev Buffered : Key → Value → IciClient → S → Type 0
  Buffered k v c s =
      (find k c.write_buffer ≡ some v)
      ⊎ ((find k c.write_buffer ≡ none) × (find k c.read_buffer ≡ some v))

  get-Buffered :
      (k : Key) (v : Value) (c c' : IciClient) (s s' : S)
      → ItemCut.get serve k c s ≡ some (text v ∷ [], c', s')
      → Buffered k v c' s'
  unfolding ItemCut.get ItemCut.remember got
  get-Buffered k v c c' s s' h = elim (Option-cases (find k c.write_buffer)) [
    | inr (w, there) ↦ inl (ground arith)
    | inl absent ↦ elim (Option-cases (find k c.read_buffer)) [
      | inr (w, there) ↦ inr (ground arith, ground arith)
      | inl gone ↦ elim (Option-cases (serve (Request.get k) s)) [
        | inl waits ↦ absurd (ground arith)
        | inr ((response, s1), answer) ↦ inr (
          ground arith,
          ground (arith, find-assign k k (value_of response) c.read_buffer, bytes_eq.beq_iff k k),
        )
      ]
    ]
  ]

  Buffered-get :
      (k : Key) (v : Value) (c : IciClient) (s : S)
      → Buffered k v c s
      → ItemCut.get serve k c s ≡ some (text v ∷ [], c, s)
  unfolding ItemCut.get
  Buffered-get k v c s (inl there) = ground arith
  Buffered-get k v c s (inr (absent, there)) = ground arith

  keep-Buffered :
      (k : Key) (v : Value) (command : Command) (input : Bytes) (c c' : IciClient) (s s' : S)
      (out : List Line)
      → Spares k command
      → Buffered k v c s
      → execute (ici_client serve) input command c s ≡ some (out, c', s')
      → Buffered k v c' s'
  unfolding ItemCut.begin ItemCut.get ItemCut.put ItemCut.end ItemCut.remember
  keep-Buffered k v begin input c c' s s' out a b h = ground arith
  keep-Buffered k v (get j) input c c' s s' out a b h =
      elim (Option-cases (serve (Request.get j) s)) [
        | inl waits ↦ ground arith
        | inr ((response, s1), answer) ↦
            ground (arith, find-assign j k (value_of response) c.read_buffer, bytes_eq.beq_iff j k)
      ]
  keep-Buffered k v (put j w) input c c' s s' out a b h =
      ground (arith, find-assign j k w c.write_buffer)
  keep-Buffered k v end input c c' s s' out a b h = absurd a
  keep-Buffered k v other input c c' s s' out a b h = ground arith

  -- Item cut isolation: once a read has given a value, then as long as the user neither ends the
  -- transaction nor writes the key, any further read of the key gives the same value, whatever has
  -- happened at the server.
  pub item_cut_isolation :
      (k : Key) (v : Value) (inputs : List Bytes) (c c' c'' : IciClient) (s s' s'' : S)
      (out : List Line)
      → All (Spares k) inputs
      → ItemCut.get serve k c s ≡ some (text v ∷ [], c', s')
      → repl (ici_client serve) inputs c' s' ≡ some (out, c'', s'')
      → ItemCut.get serve k c'' s'' ≡ some (text v ∷ [], c'', s'')
  item_cut_isolation k v inputs c c' c'' s s' s'' out spares first run = Buffered-get k v c'' s'' (
      repl_keeps (ici_client serve) (Spares k) (Buffered k v) (keep-Buffered k v) inputs c' c'' s'
        s'' out spares (get-Buffered k v c c' s s' first) run)

  Written : Key → Value → RcClient → S → Type 0
  Written k v c s = find k c.write_buffer ≡ some v

  keep-Written :
      (k : Key) (v : Value) (command : Command) (input : Bytes) (c c' : RcClient) (s s' : S)
      (out : List Line)
      → Spares k command
      → Written k v c s
      → execute (rc_client serve) input command c s ≡ some (out, c', s')
      → Written k v c' s'
  unfolding ReadCommitted.begin ReadCommitted.get ReadCommitted.put Written
  keep-Written k v begin input c c' s s' out a b h = ground arith
  keep-Written k v (get j) input c c' s s' out a b h = ground arith
  keep-Written k v (put j w) input c c' s s' out a b h =
      ground (arith, find-assign j k w c.write_buffer)
  keep-Written k v end input c c' s s' out a b h = absurd a
  keep-Written k v other input c c' s s' out a b h = ground arith

  -- Read your writes: a read committed client that has accepted a write of a key, which it does
  -- silently, gives that value at every read of the key until the transaction ends or the key is
  -- written again. It does not ask the server.
  pub read_own_writes :
      (k : Key) (v : Value) (inputs : List Bytes) (c c' c'' : RcClient) (s s' s'' : S)
      (out : List Line)
      → All (Spares k) inputs
      → ReadCommitted.put serve k v c s ≡ some ([], c', s')
      → repl (rc_client serve) inputs c' s' ≡ some (out, c'', s'')
      → ReadCommitted.get serve k c'' s'' ≡ some (text v ∷ [], c'', s'')
  unfolding ReadCommitted.get ReadCommitted.put Written
  read_own_writes k v inputs c c' c'' s s' s'' out spares first run =
      let written : Written k v c' s' =
        ground (arith, find-assign k k v c.write_buffer, bytes_eq.beq_iff k k) in
      ground (
        arith,
        repl_keeps (rc_client serve) (Spares k) (Written k v) (keep-Written k v) inputs c' c'' s'
            s'' out spares written run,
      )
