-- ===== src/Flow/Exchange/Faithful.antt =====
-- What every step of an exchange keeps, when the child gives the same tuples after each reset.
use mathlib.Core.List.{append_assoc}
use lattice_flow.Base.{
  ℕ, suc, ◌+◌, ◌<◌, ◌≡◌, refl, sym, ◌∙◌, ap, subst, Option, none, some, List, [], ◌∷◌, ◌++◌, arith,
  List-cases, inl, inr,
}
use lattice_flow.Concurrency.Queue.{Queue, push, pop, try_pop, clear}
use lattice_flow.Flow.Operator.{Operator, Yields}
use lattice_flow.Flow.Exchange.{
  Signal, reset_signal, die, Place, reading, polling, clearing, waiting, exited, Exchange,
  new_exchange, reset, destroy, poll, wait, clear_buffer, read_child,
}
use lattice_flow.Flow.Exchange.Stream.{
  stream, stamped, Until, stamped-Until, stamped-snoc, Until-snoc, Until-suc, sent, taken, IsLive,
  IsAtEnd, sent_reset, sent_die,
}

module _ {ℓ κ} {S : Type ℓ} {T : Type κ} (op : Operator S T) (xs : List T) where
  -- What is still to come is what the child still gives, and nothing at its end.
  abbrev Due : Exchange S T → Type κ
  Due e =
      (more : List (Option T)) × (e.answers ++ (stamped e.num_resets e.buffer.xs ++ more)
        ≡ stream xs)
      × (IsLive e.place → (ys : List T) × Yields op e.child ys × (more ≡ stream ys))
      × (IsAtEnd e.place → more ≡ [])

  pub record IsFaithful (e : Exchange S T) : Type κ where
    pub counted : e.child_resets + sent e.signals.xs + taken e.place ≡ e.num_resets
    pub stamps : Until e.child_resets e.buffer.xs
    pub stale : e.child_resets < e.num_resets → e.answers ≡ []
    pub due : e.child_resets ≡ e.num_resets → Due e

  pub new_exchange-IsFaithful : (s : S) → Yields op s xs → IsFaithful (new_exchange s)
  unfolding new_exchange
  new_exchange-IsFaithful s y = record {
    counted = refl;
    stamps = tt;
    stale = λ h. refl;
    due = λ _. (stream xs, refl, λ _. (xs, y, refl), λ end. absurd end);
  }

  pub reset-IsFaithful : (e : Exchange S T) → IsFaithful e → IsFaithful (reset e)
  unfolding reset push
  reset-IsFaithful e s = record {
    counted = ground (arith, s.counted, sent_reset e.signals.xs);
    stamps = s.stamps;
    stale = λ h. refl;
    due = λ h. absurd (ground (arith, s.counted));
  }

  pub destroy-IsFaithful : (e : Exchange S T) → IsFaithful e → IsFaithful (destroy e)
  unfolding destroy push
  destroy-IsFaithful e s = record {
    counted = ground (arith, s.counted, sent_die e.signals.xs);
    stamps = s.stamps;
    stale = s.stale;
    due = s.due;
  }

  stamped_push :
      (m n : ℕ) (t : Option T) (rest : List (ℕ × Option T))
      → m ≡ n
      → stamped n (rest ++ (m, t) ∷ []) ≡ stamped n rest ++ t ∷ []
  stamped_push m n t rest h = ap (λ k. stamped n (rest ++ (k, t) ∷ [])) h ∙ stamped-snoc n t rest

  -- One more value in the buffer is one less to come.
  pushed_due :
      (answers now : List (Option T)) (t : Option T) (more : List (Option T))
      → answers ++ (now ++ t ∷ more) ≡ stream xs
      → answers ++ ((now ++ t ∷ []) ++ more) ≡ stream xs
  pushed_due answers now t more d =
      ap (λ (l : List (Option T)). answers ++ l) (append_assoc now (t ∷ []) more) ∙ d

  read_child-Due :
      (e : Exchange S T) (ys : List T)
      → e.child_resets ≡ e.num_resets
      → Yields op e.child ys
      → e.answers ++ (stamped e.num_resets e.buffer.xs ++ stream ys) ≡ stream xs
      → Due (read_child op.next e)
  unfolding read_child push
  read_child-Due e [] h y d =
      rw (y, stamped_push e.child_resets e.num_resets none e.buffer.xs h)
        (
          [],
          pushed_due e.answers (stamped e.num_resets e.buffer.xs) none [] d,
          λ live. absurd live,
          λ _. refl,
        )
  read_child-Due e (x ∷ ys) h (y, more) d =
      rw (y, stamped_push e.child_resets e.num_resets (some x) e.buffer.xs h)
        (
          stream ys,
          pushed_due e.answers (stamped e.num_resets e.buffer.xs) (some x) (stream ys) d,
          λ live. (ys, more, refl),
          λ end. absurd end,
        )

  pub read_child-IsFaithful :
      (e : Exchange S T) → e.place ≡ reading → IsFaithful e → IsFaithful (read_child op.next e)
  unfolding read_child push
  read_child-IsFaithful e at s = record {
    counted = ground (arith, s.counted, at);
    stamps = Until-snoc e.child_resets (op.next e.child).0 e.buffer.xs s.stamps;
    stale = s.stale;
    due = λ h.
        let (more, d, live, _) = s.due h in
        let (ys, y, m) = live (subst IsLive (sym at) tt) in
        read_child-Due e ys h y
          (ap (λ l. e.answers ++ (stamped e.num_resets e.buffer.xs ++ l)) (sym m) ∙ d);
  }

  -- The thread takes a signal and ends, or goes on with the same tuples.
  moved :
      (e : Exchange S T) (signals : Queue Signal) (place : Place)
      → e.child_resets + sent signals.xs + taken place ≡ e.num_resets
      → (IsLive place → IsLive e.place)
      → (¬ IsAtEnd place)
      → IsFaithful e
      → IsFaithful (record e { signals = signals; place = place })
  moved e signals place counted live more_to_do s = record {
    counted = counted;
    stamps = s.stamps;
    stale = s.stale;
    due = λ h.
        let (more, d, follows, _) = s.due h in
        (more, d, λ l. follows (live l), λ end. absurd (more_to_do end));
  }

  pub poll-IsFaithful : (e : Exchange S T) → e.place ≡ polling → IsFaithful e → IsFaithful (poll e)
  unfolding poll try_pop
  poll-IsFaithful e at s = elim (List-cases e.signals.xs) [
    | inl c ↦ subst IsFaithful (ground arith) (
        moved e e.signals reading (ground (arith, s.counted, at)) (λ _. subst IsLive (sym at) tt)
          (λ end. end) s)
    | inr (reset_signal, rest, c) ↦ subst IsFaithful (ground arith) (
        moved e (record { xs = rest }) clearing (ground (arith, s.counted, at, c))
          (λ live. absurd live) (λ end. end) s)
    | inr (die, rest, c) ↦ subst IsFaithful (ground arith) (
        moved e (record { xs = rest }) exited (ground (arith, s.counted, at, c))
          (λ live. absurd live) (λ end. end) s)
  ]

  restarted :
      (e : Exchange S T) (rest : List Signal)
      → ((s : S) → Yields op (op.reset s) xs)
      → e.place ≡ waiting
      → e.signals.xs ≡ reset_signal ∷ rest
      → IsFaithful e
      → IsFaithful (record e {
        child = op.reset e.child;
        child_resets = e.child_resets + 1;
        signals = record { xs = rest };
        place = reading;
      })
  restarted e rest restarts at c s =
      let counted : e.child_resets + suc (sent rest) ≡ e.num_resets =
        ground (arith, s.counted, at, c) in
      let no_answers = s.stale (omega arith) in
      record {
        counted = omega arith;
        stamps = Until-suc e.child_resets e.buffer.xs s.stamps;
        stale = λ h. no_answers;
        due = λ h. (
          stream xs,
          rw
              (
                no_answers,
                stamped-Until e.child_resets e.num_resets e.buffer.xs s.stamps (omega arith),
              )
              refl,
          λ live. (xs, restarts e.child, refl),
          λ end. absurd end,
        );
      }

  pub wait-IsFaithful :
      (e f : Exchange S T)
      → ((s : S) → Yields op (op.reset s) xs)
      → e.place ≡ waiting
      → wait op.reset e ≡ some f
      → IsFaithful e
      → IsFaithful f
  unfolding wait pop
  wait-IsFaithful e f restarts at h s = elim (List-cases e.signals.xs) [
    | inl c ↦ absurd (ground arith)
    | inr (reset_signal, rest, c) ↦
        subst IsFaithful (ground arith) (restarted e rest restarts at c s)
    | inr (die, rest, c) ↦ subst IsFaithful (ground arith) (
        moved e (record { xs = rest }) exited (ground (arith, s.counted, at, c))
          (λ live. absurd live) (λ end. end) s)
  ]

  pub clear_buffer-IsFaithful :
      (e : Exchange S T) → e.place ≡ clearing → IsFaithful e → IsFaithful (clear_buffer op.reset e)
  unfolding clear_buffer clear
  clear_buffer-IsFaithful e at s = record {
    counted = ground (arith, s.counted, at);
    stamps = tt;
    stale = λ h. s.stale (ground (arith, s.counted, at));
    due = λ h. (
      stream xs,
      ap (λ l. l ++ stream xs) (s.stale (ground (arith, s.counted, at))),
      λ live. absurd live,
      λ end. absurd end,
    );
  }
