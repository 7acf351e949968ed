-- ===== src/Kvs/Worker/Wire.antt =====
-- The clients of src/key_value_stores at the end of a wire to a thread, and at the thread itself.
use mathlib.Core.List.{append-nil}
use lattice_flow.Base.{
  ◌≡◌, refl, sym, ◌∙◌, ap, subst, Option, none, some, List, [], ◌++◌, Option-cases, inl, inr,
}
use lattice_flow.Zmq.Proto.{Codec, send_proto, recv_proto, recv_proto-send_proto}
use lattice_flow.Kvs.Message.{Request, Response}
use lattice_flow.Kvs.Server.{State, GossipData, process_request}
use lattice_flow.Kvs.Client.{Outcome, Line}
use lattice_flow.Kvs.Client.Session.{Serve}
use lattice_flow.Kvs.Client.Commit.{serve_thread}
use lattice_flow.Kvs.Worker.{Worker, run_request}
use lattice_flow.Kvs.Worker.Requests.{after_request, run_request-none, run_request-some}

-- No request is under way.
pub record IsIdle (w : Worker) : Type 0 where
  pub no_request : w.responder ≡ []
  pub no_reply : w.replies ≡ []

-- The thread at the other end of the wire ends in the same state with the same answer, and is idle.
abbrev pub Answers : Option (Response × Worker) → Option (Response × State) → Type 0
Answers r none = r ≡ none
Answers r (some (response, t)) = (w : Worker) × (r ≡ some (response, w)) × IsIdle w × (w.state ≡ t)

abbrev pub Carries : {C : Type 0} → Outcome C Worker → Outcome C State → Type 0
Carries r none = r ≡ none
Carries r (some (out, c, t)) = (w : Worker) × (r ≡ some (out, c, w)) × IsIdle w × (w.state ≡ t)

module _ {C : Type 0} where
  pub Answers-bind :
      (r : Option (Response × Worker)) (q : Option (Response × State))
      (k : Response → Worker → Outcome C Worker) (l : Response → State → Outcome C State)
      → Answers r q
      → ((response : Response) (w : Worker)
          → IsIdle w
          → Carries (k response w) (l response w.state))
      → Carries
          (elim r [ none ↦ none | some (response, w) ↦ k response w ])
          (elim q [ none ↦ none | some (response, t) ↦ l response t ])
  Answers-bind r none k l a h = rw a refl
  Answers-bind r (some (response, t)) k l (w, e, i, s) h =
      rw e (subst (λ u. Carries (k response w) (l response u)) s (h response w i))

  pub Carries-bind :
      {D : Type 0} (r : Outcome C Worker) (q : Outcome C State)
      (k : List Line → C → Worker → Outcome D Worker) (l : List Line → C → State → Outcome D State)
      → Carries r q
      → ((out : List Line) (c : C) (w : Worker) → IsIdle w → Carries (k out c w) (l out c w.state))
      → Carries
          (elim r [ none ↦ none | some (out, c, w) ↦ k out c w ])
          (elim q [ none ↦ none | some (out, c, t) ↦ l out c t ])
  Carries-bind r none k l a h = rw a refl
  Carries-bind r (some (out, c, t)) k l (w, e, i, s) h =
      rw e (subst (λ u. Carries (k out c w) (l out c u)) s (h out c w i))

module _ (𝓻 : Codec Request) (𝓼 : Codec Response) where
  abbrev pub asked : Request → Worker → Worker
  asked request w = record w { responder = send_proto 𝓻 request w.responder }

  -- `send_proto` and then `recv_proto` of a client; the thread runs between them.
  unfoldable pub call : Serve Worker
  call request w = elim (run_request 𝓻 𝓼 (asked request w)) [
    | none ↦ none
    | some w' ↦ elim (recv_proto 𝓼 w'.replies) [
      | none ↦ none
      | some (response, rest) ↦ some (response, record w' { replies = rest })
    ]
  ]

  asked_request :
      (request : Request) (w : Worker)
      → IsIdle w
      → (asked request w).responder ≡ send_proto 𝓻 request [] ++ []
  asked_request request w i =
      ap (send_proto 𝓻 request) i.no_request ∙ sym (append-nil (send_proto 𝓻 request []))

  call-none :
      (request : Request) (w : Worker)
      → IsIdle w
      → process_request request w.state ≡ none
      → call request w ≡ none
  unfolding call
  call-none request w i e =
      rw (call, run_request-none 𝓻 𝓼 request [] (asked request w) (asked_request request w i) e)
        refl

  pub call-some :
      (request : Request) (w : Worker) (t : State) (response : Response) (sent : Option GossipData)
      → IsIdle w
      → process_request request w.state ≡ some (t, response, sent)
      → call request w ≡ some (response, after_request w [] [] t sent)
  unfolding call
  call-some request w t response sent i e =
      rw
        (
          call,
          run_request-some 𝓻 𝓼 request [] (asked request w) t response sent
              (asked_request request w i) e,
          i.no_reply,
          recv_proto-send_proto 𝓼 response,
        )
        refl

  pub call-Answers :
      (request : Request) (w : Worker)
      → IsIdle w
      → Answers (call request w) (serve_thread request w.state)
  unfolding serve_thread
  call-Answers request w i = elim (Option-cases (process_request request w.state)) [
    | inl e ↦ rw (serve_thread, e) (call-none request w i e)
    | inr ((t, response, sent), e) ↦
        rw (serve_thread, e)
          (
            after_request w [] [] t sent,
            call-some request w t response sent i e,
            record { no_request = refl; no_reply = refl },
            refl,
          )
  ]
