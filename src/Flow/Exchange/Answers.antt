-- ===== src/Flow/Exchange/Answers.antt =====
-- What the owner of an exchange is given, in every interleaving with the thread of the child.
use mathlib.Core.List.{append_assoc, append-nil}
use lattice_flow.Base.{
  ℕ, ◌-◌, zero_or_positive, ◌≡◌, sym, ◌∙◌, ap, subst, Option, some, List, [], ◌∷◌, ◌++◌, arith,
  nat_beq, List-cases, Bool-cases, inl, inr,
}
use lattice_flow.Concurrency.Queue.{pop}
use lattice_flow.Flow.Operator.{Operator, Yields}
use lattice_flow.Flow.Exchange.{
  outside, waiting, Exchange, new_exchange, begin_next, take_buffered, Step, begins, takes, resets,
  destroys, reads, polls, clears, waits, Reach, here, next,
}
use lattice_flow.Flow.Exchange.Stream.{stream, stamped, Until, IsAtEnd}
use lattice_flow.Flow.Exchange.Faithful.{
  IsFaithful, new_exchange-IsFaithful, reset-IsFaithful, destroy-IsFaithful, read_child-IsFaithful,
  poll-IsFaithful, clear_buffer-IsFaithful, wait-IsFaithful,
}

module _ {ℓ κ} {S : Type ℓ} {T : Type κ} (op : Operator S T) (xs : List T) where
  answered :
      (e : Exchange S T) (t : Option T) (rest : List (ℕ × Option T))
      → e.buffer.xs ≡ (e.num_resets, t) ∷ rest
      → IsFaithful op xs e
      → IsFaithful op xs (record e {
        buffer = record { xs = rest };
        caller = outside;
        answers = e.answers ++ t ∷ [];
      })
  answered e t rest c s =
      let (young, stamps) = subst (Until e.child_resets) c s.stamps in
      record {
        counted = s.counted;
        stamps = stamps;
        stale = λ h. absurd (omega arith);
        due = λ h.
            let (more, d, live, end) = s.due h in
            let front : stamped e.num_resets e.buffer.xs ≡ t ∷ stamped e.num_resets rest =
              ground (arith, c) in
            (
              more,
              append_assoc e.answers (t ∷ []) (stamped e.num_resets rest ++ more)
                  ∙ ap (λ l. e.answers ++ (l ++ more)) (sym front)
                  ∙ d,
              live,
              end,
            );
      }

  discarded :
      (e : Exchange S T) (stamp : ℕ) (t : Option T) (rest : List (ℕ × Option T))
      → e.buffer.xs ≡ (stamp, t) ∷ rest
      → ¬ (stamp ≡ e.num_resets)
      → IsFaithful op xs e
      → IsFaithful op xs (record e { buffer = record { xs = rest } })
  discarded e stamp t rest c n s =
      let (_, stamps) = subst (Until e.child_resets) c s.stamps in
      let front : stamped e.num_resets e.buffer.xs ≡ stamped e.num_resets rest =
        ground (arith, c) in
      record {
        counted = s.counted;
        stamps = stamps;
        stale = s.stale;
        due = λ h.
            let (more, d, live, end) = s.due h in
            (more, ap (λ l. e.answers ++ (l ++ more)) (sym front) ∙ d, live, end);
      }

  take_buffered-IsFaithful :
      (e f : Exchange S T) → take_buffered e ≡ some f → IsFaithful op xs e → IsFaithful op xs f
  unfolding take_buffered pop
  take_buffered-IsFaithful e f h s = elim (List-cases e.buffer.xs) [
    | inl c ↦ absurd (ground arith)
    | inr ((stamp, t), rest, c) ↦ elim (Bool-cases (nat_beq stamp e.num_resets)) [
      | inl same ↦
          let eq : stamp ≡ e.num_resets = ground arith in
          subst (IsFaithful op xs) (ground arith)
            (answered e t rest (c ∙ ap (λ k. (k, t) ∷ rest) eq) s)
      | inr other ↦
          subst (IsFaithful op xs) (ground arith)
            (discarded e stamp t rest c (λ eq. ground arith) s)
    ]
  ]

  module _ (restarts : (s : S) → Yields op (op.reset s) xs) where
    Step-IsFaithful : {e f : Exchange S T} → Step op e f → IsFaithful op xs e → IsFaithful op xs f
    unfolding begin_next
    Step-IsFaithful (begins h) s = record {
      counted = s.counted;
      stamps = s.stamps;
      stale = s.stale;
      due = s.due;
    }
    Step-IsFaithful {e} {f} (takes h k) s = take_buffered-IsFaithful e f k s
    Step-IsFaithful {e} (resets h) s = reset-IsFaithful op xs e s
    Step-IsFaithful {e} (destroys h) s = destroy-IsFaithful op xs e s
    Step-IsFaithful {e} (reads h) s = read_child-IsFaithful op xs e h s
    Step-IsFaithful {e} (polls h) s = poll-IsFaithful op xs e h s
    Step-IsFaithful {e} (clears h) s = clear_buffer-IsFaithful op xs e h s
    Step-IsFaithful {e} {f} (waits h k) s = wait-IsFaithful op xs e f restarts h k s

    pub Reach-IsFaithful :
        (s : S) {e : Exchange S T}
        → Yields op s xs
        → Reach op (new_exchange s) e
        → IsFaithful op xs e
    Reach-IsFaithful s y here = new_exchange-IsFaithful op xs s y
    Reach-IsFaithful s y (next r st) = Step-IsFaithful st (Reach-IsFaithful s y r)

    -- The child gives some tuples, and gives the same ones after each of its resets. Then in every run
    -- of a new exchange, in whatever order the owner and the thread of the child act, what `next` has
    -- returned since the last `reset` are the first of these tuples, in order, or all of them and one
    -- `none`: no tuple is lost, comes twice or is left from before the reset.
    pub answers_prefix :
        (s : S) {e : Exchange S T}
        → Yields op s xs
        → Reach op (new_exchange s) e
        → (more : List (Option T)) × (e.answers ++ more ≡ stream xs)
    answers_prefix s {e} y r =
        let f = Reach-IsFaithful s y r in
        elim (zero_or_positive (e.num_resets - e.child_resets)) [
          | inl h ↦
              let (more, d, _, _) = f.due (ground (arith, f.counted)) in
              (stamped e.num_resets e.buffer.xs ++ more, d)
          | inr h ↦ (stream xs, ap (λ l. l ++ stream xs) (f.stale (omega arith)))
        ]

    -- So `next` waits for ever, with no call left to the thread of the child, only after it has
    -- returned all the tuples and the `none` that ends them, unless that thread has returned.
    pub next_waits :
        (s : S) {e : Exchange S T}
        → Yields op s xs
        → Reach op (new_exchange s) e
        → e.place ≡ waiting
        → e.signals.xs ≡ []
        → e.buffer.xs ≡ []
        → e.answers ≡ stream xs
    next_waits s {e} y r at quiet drained =
        let f = Reach-IsFaithful s y r in
        let (more, d, _, end) = f.due (ground (arith, f.counted, at, quiet)) in
        let none_left : stamped e.num_resets e.buffer.xs ≡ [] = ground (arith, drained) in
        sym (append-nil e.answers)
        ∙ ap (λ l. e.answers ++ l) (sym (rw (none_left) (end (subst IsAtEnd (sym at) tt))))
        ∙ d
