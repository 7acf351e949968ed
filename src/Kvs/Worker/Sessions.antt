-- ===== src/Kvs/Worker/Sessions.antt =====
-- Sessions of the three clients over the wire.
use lattice_flow.Base.{
  refl, none, some, List, [], ◌∷◌, ◌++◌, Option-cases, inl, inr, Bool-cases, int_eq,
}
use lattice_flow.Std.Assoc.{find}
use lattice_flow.Std.Lexicographic.{Bytes, bytes_eq}
use lattice_flow.Zmq.Proto.{Codec}
use lattice_flow.Kvs.Message.{Key, Value, Request, Response, begin_transaction}
use lattice_flow.Kvs.Server.{State}
use lattice_flow.Kvs.Client.{
  Client, Line, Command, begin, get, put, end, other, execute, parse, repl,
}
use lattice_flow.Kvs.Client.Session.{no_timestamp, began, got, stored}
use lattice_flow.Kvs.Client.Commit.{serve_thread}
use lattice_flow.Kvs.Client.ReadUncommitted
use lattice_flow.Kvs.Client.ReadUncommitted.{RucClient, ruc_client}
use lattice_flow.Kvs.Client.ReadCommitted
use lattice_flow.Kvs.Client.ReadCommitted.{RcClient, rc_client}
use lattice_flow.Kvs.Client.ItemCut
use lattice_flow.Kvs.Client.ItemCut.{IciClient, ici_client, remember}
use lattice_flow.Kvs.Worker.{Worker}
use lattice_flow.Kvs.Worker.Wire.{IsIdle, Carries, Answers-bind, Carries-bind, call, call-Answers}

-- A client at the end of a wire does as it does at the thread.
pub record Agree {C : Type 0} (far : Client C Worker) (near : Client C State) : Type 0 where
  pub begins : (c : C) (w : Worker) → IsIdle w → Carries (far.begin c w) (near.begin c w.state)
  pub gets :
      (k : Key) (c : C) (w : Worker) → IsIdle w → Carries (far.get k c w) (near.get k c w.state)
  pub puts :
      (k : Key) (v : Value) (c : C) (w : Worker)
      → IsIdle w
      → Carries (far.put k v c w) (near.put k v c w.state)
  pub ends : (c : C) (w : Worker) → IsIdle w → Carries (far.end c w) (near.end c w.state)

module _ {C : Type 0} (far : Client C Worker) (near : Client C State) (same : Agree far near) where
  execute-Carries :
      (input : Bytes) (command : Command) (c : C) (w : Worker)
      → IsIdle w
      → Carries (execute far input command c w) (execute near input command c w.state)
  execute-Carries input begin c w i = same.begins c w i
  execute-Carries input (get k) c w i = same.gets k c w i
  execute-Carries input (put k v) c w i = same.puts k v c w i
  execute-Carries input end c w i = same.ends c w i
  execute-Carries input other c w i = (w, refl, i, refl)

  pub repl-Carries :
      (inputs : List Bytes) (c : C) (w : Worker)
      → IsIdle w
      → Carries (repl far inputs c w) (repl near inputs c w.state)
  unfolding repl
  repl-Carries [] c w i = (w, refl, i, refl)
  repl-Carries (input ∷ inputs) c w i =
      Carries-bind (execute far input (parse input) c w)
        (execute near input (parse input) c w.state)
        (λ out d v. elim (repl far inputs d v) [
          | none ↦ none
          | some (rest, e, u) ↦ some (out ++ rest, e, u)
        ])
        (λ out d s. elim (repl near inputs d s) [
          | none ↦ none
          | some (rest, e, t) ↦ some (out ++ rest, e, t)
        ])
        (execute-Carries input (parse input) c w i)
        (λ out d v idle.
          Carries-bind (repl far inputs d v) (repl near inputs d v.state)
            (λ rest e u. some (out ++ rest, e, u)) (λ rest e t. some (out ++ rest, e, t))
            (repl-Carries inputs d v idle) (λ rest e u j. (u, refl, j, refl)))

module _ (𝓻 : Codec Request) (𝓼 : Codec Response) where
  asks :
      {C : Type 0} (request : Request) (out : Response → List Line) (after : Response → C)
      (w : Worker)
      → IsIdle w
      → Carries
          (elim (call 𝓻 𝓼 request w) [ none ↦ none | some (r, v) ↦ some (out r, after r, v) ])
          (elim (serve_thread request w.state) [
            | none ↦ none
            | some (r, t) ↦ some (out r, after r, t)
          ])
  asks request out after w i =
      Answers-bind (call 𝓻 𝓼 request w) (serve_thread request w.state)
        (λ r v. some (out r, after r, v)) (λ r t. some (out r, after r, t))
        (call-Answers 𝓻 𝓼 request w i) (λ r v j. (v, refl, j, refl))

  ruc_put :
      (k : Key) (v : Value) (c : RucClient) (w : Worker)
      → IsIdle w
      → Carries
          (ReadUncommitted.put (call 𝓻 𝓼) k v c w)
          (ReadUncommitted.put serve_thread k v c w.state)
  unfolding ReadUncommitted.put
  ruc_put k v c w i = elim (Bool-cases (int_eq c.current_timestamp no_timestamp)) [
    | inl e ↦ rw (ReadUncommitted.put, e) (w, refl, i, refl)
    | inr e ↦
        rw (ReadUncommitted.put, e)
          (asks (Request.put c.current_timestamp ((k, v) ∷ [])) stored (λ r. c) w i)
  ]

  ruc_agrees : Agree (ruc_client (call 𝓻 𝓼)) (ruc_client serve_thread)
  unfolding ReadUncommitted.begin ReadUncommitted.get ReadUncommitted.end
  ruc_agrees = record {
    begins = λ c w i.
        asks begin_transaction (λ r. (began r c.current_timestamp).0)
          (λ r. record c { current_timestamp = (began r c.current_timestamp).1 }) w i;
    gets = λ k c w i. asks (Request.get k) got (λ r. c) w i;
    puts = ruc_put;
    ends = λ c w i. (w, refl, i, refl);
  }

  rc_get :
      (k : Key) (c : RcClient) (w : Worker)
      → IsIdle w
      → Carries (ReadCommitted.get (call 𝓻 𝓼) k c w) (ReadCommitted.get serve_thread k c w.state)
  unfolding ReadCommitted.get
  rc_get k c w i = elim (Option-cases (find k c.write_buffer)) [
    | inl e ↦ rw (ReadCommitted.get, e) (asks (Request.get k) got (λ r. c) w i)
    | inr (v, e) ↦ rw (ReadCommitted.get, e) (w, refl, i, refl)
  ]

  rc_put :
      (k : Key) (v : Value) (c : RcClient) (w : Worker)
      → IsIdle w
      → Carries
          (ReadCommitted.put (call 𝓻 𝓼) k v c w)
          (ReadCommitted.put serve_thread k v c w.state)
  unfolding ReadCommitted.put
  rc_put k v c w i = elim (Bool-cases (int_eq c.current_timestamp no_timestamp)) [
    | inl e ↦ rw (ReadCommitted.put, e) (w, refl, i, refl)
    | inr e ↦ rw (ReadCommitted.put, e) (w, refl, i, refl)
  ]

  rc_agrees : Agree (rc_client (call 𝓻 𝓼)) (rc_client serve_thread)
  unfolding ReadCommitted.begin ReadCommitted.end
  rc_agrees = record {
    begins = λ c w i.
        asks begin_transaction (λ r. (began r c.current_timestamp).0)
          (λ r. record c { current_timestamp = (began r c.current_timestamp).1 }) w i;
    gets = rc_get;
    puts = rc_put;
    ends = λ c w i.
        asks (Request.put c.current_timestamp c.write_buffer) stored
          (λ r. record c { write_buffer = [] }) w i;
  }

  ici_get :
      (k : Key) (c : IciClient) (w : Worker)
      → IsIdle w
      → Carries (ItemCut.get (call 𝓻 𝓼) k c w) (ItemCut.get serve_thread k c w.state)
  unfolding ItemCut.get remember
  ici_get k c w i = elim (Option-cases (find k c.write_buffer)) [
    | inl e ↦ elim (Option-cases (find k c.read_buffer)) [
      | inl d ↦
          rw (ItemCut.get, e, d) (asks (Request.get k) got (λ r. remember serve_thread k r c) w i)
      | inr (v, d) ↦ rw (ItemCut.get, e, d) (w, refl, i, refl)
    ]
    | inr (v, e) ↦ rw (ItemCut.get, e) (w, refl, i, refl)
  ]

  ici_put :
      (k : Key) (v : Value) (c : IciClient) (w : Worker)
      → IsIdle w
      → Carries (ItemCut.put (call 𝓻 𝓼) k v c w) (ItemCut.put serve_thread k v c w.state)
  unfolding ItemCut.put
  ici_put k v c w i = elim (Bool-cases (int_eq c.current_timestamp no_timestamp)) [
    | inl e ↦ rw (ItemCut.put, e) (w, refl, i, refl)
    | inr e ↦ rw (ItemCut.put, e) (w, refl, i, refl)
  ]

  ici_agrees : Agree (ici_client (call 𝓻 𝓼)) (ici_client serve_thread)
  unfolding ItemCut.begin ItemCut.end
  ici_agrees = record {
    begins = λ c w i.
        asks begin_transaction (λ r. (began r c.current_timestamp).0)
          (λ r. record c { current_timestamp = (began r c.current_timestamp).1 }) w i;
    gets = ici_get;
    puts = ici_put;
    ends = λ c w i.
        asks (Request.put c.current_timestamp c.write_buffer) stored
          (λ r. record c { write_buffer = []; read_buffer = [] }) w i;
  }

  -- Over sockets that hold nothing else, and with protocol buffers that are parsed as they were
  -- serialized, a session of each of the three clients does with a thread of the server what it does
  -- where the requests are handed over: the same text, the same client and the same state of the
  -- thread, and nothing is left in the sockets; or it is left without an answer by both.
  pub session-Carries :
      (inputs : List Bytes) (w : Worker)
      → IsIdle w
      → ((c : RucClient)
          → Carries
              (repl (ruc_client (call 𝓻 𝓼)) inputs c w)
              (repl (ruc_client serve_thread) inputs c w.state))
        × ((c : RcClient)
            → Carries
                (repl (rc_client (call 𝓻 𝓼)) inputs c w)
                (repl (rc_client serve_thread) inputs c w.state))
        × ((c : IciClient)
            → Carries
                (repl (ici_client (call 𝓻 𝓼)) inputs c w)
                (repl (ici_client serve_thread) inputs c w.state))
  session-Carries inputs w i = (
    λ c. repl-Carries (ruc_client (call 𝓻 𝓼)) (ruc_client serve_thread) ruc_agrees inputs c w i,
    λ c. repl-Carries (rc_client (call 𝓻 𝓼)) (rc_client serve_thread) rc_agrees inputs c w i,
    λ c. repl-Carries (ici_client (call 𝓻 𝓼)) (ici_client serve_thread) ici_agrees inputs c w i,
  )
