-- ===== src/Click/Server/Round.antt =====
-- One message to the example server and its answers.
use lattice_flow.Base.{
  ℕ, ◌+◌, ◌*◌, ◌≤◌, leb, true, subst, length, ◌≡◌, refl, ◌∙◌, ap, some, List, [], ◌∷◌, arith,
}
use lattice_flow.Std.Decimal.{to_string, int_max, stoi-to_string}
use lattice_flow.Zmq.Message.{EnvelopedMessage}
use lattice_flow.Click.Socket.{socket_send}
use lattice_flow.Click.Server.{Server, length_plus_i, new_server}
use lattice_flow.Click.Server.Refines.{Gives}
use lattice_flow.Click.Server.Tally.{
  Event, request, reply, delay, happen_all, Tally, new_tally, number, tally_all, frames, Answers,
}
use lattice_flow.Click.Server.Replies.{happen_all-tally_all}

answer_number :
    (i : ℕ) (env : EnvelopedMessage)
    → length env.msg + i ≤ int_max
    → number (length_plus_i i env) ≡ length env.msg + i
unfolding length_plus_i
answer_number i env h = rw (number, stoi-to_string (length env.msg + i) h) refl

-- One message and the answers to it by the workers `i`, `j`, `k` and `l`.
abbrev pub one_round : EnvelopedMessage → ℕ → ℕ → ℕ → ℕ → List Event
one_round env i j k l =
    request env
    ∷ reply (length_plus_i i env)
    ∷ reply (length_plus_i j env)
    ∷ reply (length_plus_i k env)
    ∷ reply (length_plus_i l env)
    ∷ delay 0
    ∷ []

four_replies-tally_all :
    (env r1 r2 r3 r4 : EnvelopedMessage)
    → leb (number r1 + (number r2 + (number r3 + (number r4 + 0)))) int_max ≡ true
    → (t : Tally) × (tally_all
          (request env ∷ reply r1 ∷ reply r2 ∷ reply r3 ∷ reply r4 ∷ delay 0 ∷ [])
          new_tally
        ≡ some t)
      × (t.sent
          ≡ (r4.cid, number r1 + (number r2 + (number r3 + (number r4 + 0)))) ∷ (env.cid, 0) ∷ [])
four_replies-tally_all env r1 r2 r3 r4 fits = (
  record {
    pending = [];
    count = 0;
    waiting = [];
    sent = (r4.cid, number r1 + (number r2 + (number r3 + (number r4 + 0)))) ∷ (env.cid, 0) ∷ [];
    asked = env ∷ [];
  },
  rw (tally_all, fits) refl,
  refl,
)

module _ (env : EnvelopedMessage) (i j k l : ℕ)
    (h : 4 * length env.msg + (i + j + k + l) ≤ int_max) where
  numbers_lem :
      number (length_plus_i i env)
        + (number (length_plus_i j env)
            + (number (length_plus_i k env) + (number (length_plus_i l env) + 0)))
      ≡ 4 * length env.msg + (i + j + k + l)
  numbers_lem =
      rw
        (
          answer_number i env (omega arith),
          answer_number j env (omega arith),
          answer_number k env (omega arith),
          answer_number l env (omega arith),
        )
        (omega arith)

  one_round-tally_all :
      (t : Tally) × (tally_all (one_round env i j k l) new_tally ≡ some t)
      × (t.sent ≡ (env.cid, 4 * length env.msg + (i + j + k + l)) ∷ (env.cid, 0) ∷ [])
  unfolding length_plus_i
  one_round-tally_all =
      let (t, e, sums) =
        four_replies-tally_all env (length_plus_i i env) (length_plus_i j env) (length_plus_i k env)
          (length_plus_i l env) (rw (numbers_lem) (ground arith)) in
      (t, e, sums ∙ ap (λ n. (env.cid, n) ∷ (env.cid, 0) ∷ []) numbers_lem)

  one_round-Answers : Answers (one_round env i j k l)
  unfolding length_plus_i
  one_round-Answers = (
    (length env.msg + i, omega arith, refl),
    (
      (length env.msg + j, omega arith, refl),
      ((length env.msg + k, omega arith, refl), ((length env.msg + l, omega arith, refl), tt)),
    ),
  )

  pub one_round-router :
      (s : Server) × (happen_all (one_round env i j k l) (some new_server) ≡ some s)
      × (s.router
          ≡ socket_send
              (record { cid = env.cid; msg = to_string 0 })
              (socket_send
                (record { cid = env.cid; msg = to_string (4 * length env.msg + (i + j + k + l)) })
                []))
  one_round-router =
      let (t, e, sums) = one_round-tally_all in
      let (s, f, r) =
        subst (Gives (happen_all (one_round env i j k l) (some new_server))) e
          (happen_all-tally_all (one_round env i j k l) one_round-Answers) in
      (s, f, r.router_refine ∙ ap (λ ns. frames ns []) sums)
