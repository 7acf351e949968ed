-- ===== src/Flow/Exchange/Resets.antt =====
-- A reset that the thread of the child reads between two tuples.
use lattice_flow.Base.{ℕ, ◌<◌, ◌≡◌, refl, subst, some, List, [], ◌∷◌, arith, List-cases, inl, inr}
use lattice_flow.Concurrency.Queue.{push, pop, try_pop, clear}
use lattice_flow.Flow.Operator.{Operator, Yields}
use lattice_flow.Flow.Exchange.{
  Signal, reset_signal, Place, reading, polling, clearing, waiting, exited, Exchange, new_exchange,
  begin_next, take_buffered, reset, destroy, poll, clear_buffer, Step, begins, takes, resets,
  destroys, reads, polls, clears, waits, Reach, here, next,
}
use lattice_flow.Flow.Exchange.Stream.{Until}
use lattice_flow.Flow.Exchange.Answers.{Reach-IsFaithful}

abbrev IsEnding : Place → Type 0
IsEnding reading = ⊥
IsEnding polling = ⊥
IsEnding clearing = Unit
IsEnding waiting = ⊥
IsEnding exited = Unit

module _ {ℓ κ} {S : Type ℓ} {T : Type κ} (op : Operator S T) where
  -- The thread of the child ends, and the buffer holds nothing since the last reset.
  pub record IsLost (e : Exchange S T) : Type κ where
    pub ending : IsEnding e.place
    pub last : ℕ
    pub old : Until last e.buffer.xs
    pub younger : last < e.num_resets
    pub silent : e.answers ≡ []

  take_buffered-IsLost : (e f : Exchange S T) → take_buffered e ≡ some f → IsLost e → IsLost f
  unfolding take_buffered pop
  take_buffered-IsLost e f h s = elim (List-cases e.buffer.xs) [
    | inl c ↦ absurd (ground arith)
    | inr ((stamp, t), rest, c) ↦
        let (older, old) = subst (Until s.last) c s.old in
        let younger = s.younger in
        let kept : IsLost (record e { buffer = record { xs = rest } }) = record {
          ending = s.ending;
          last = s.last;
          old = old;
          younger = younger;
          silent = s.silent;
        } in
        subst IsLost (ground arith) kept
  ]

  poll-IsLost :
      (e : Exchange S T) (rest : List Signal)
      → e.signals.xs ≡ reset_signal ∷ rest
      → Until e.child_resets e.buffer.xs
      → e.child_resets < e.num_resets
      → e.answers ≡ []
      → IsLost (poll e)
  unfolding poll try_pop
  poll-IsLost e rest c stamps less silent =
      let lost : IsLost (record e { signals = record { xs = rest }; place = clearing }) = record {
        ending = tt;
        last = e.child_resets;
        old = stamps;
        younger = less;
        silent = silent;
      } in
      subst IsLost (ground arith) lost

  Step-IsLost : {e f : Exchange S T} → Step op e f → IsLost e → IsLost f
  unfolding begin_next reset destroy push clear_buffer clear
  Step-IsLost (begins h) s = record {
    ending = s.ending;
    last = s.last;
    old = s.old;
    younger = s.younger;
    silent = s.silent;
  }
  Step-IsLost {e} {f} (takes h k) s = take_buffered-IsLost e f k s
  Step-IsLost {e} (resets h) s = record {
    ending = s.ending;
    last = s.last;
    old = s.old;
    younger = let less = s.younger in omega arith;
    silent = refl;
  }
  Step-IsLost (destroys h) s = record {
    ending = s.ending;
    last = s.last;
    old = s.old;
    younger = s.younger;
    silent = s.silent;
  }
  Step-IsLost (reads h) s = absurd (subst IsEnding h s.ending)
  Step-IsLost (polls h) s = absurd (subst IsEnding h s.ending)
  Step-IsLost (clears h) s = record {
    ending = tt;
    last = s.last;
    old = tt;
    younger = s.younger;
    silent = s.silent;
  }
  Step-IsLost (waits h k) s = absurd (subst IsEnding h s.ending)

  Reach-IsLost : {e f : Exchange S T} → Reach op e f → IsLost e → IsLost f
  Reach-IsLost here s = s
  Reach-IsLost (next r st) s = Step-IsLost st (Reach-IsLost r s)

  -- If the thread of the child reads the signal of a reset between two tuples, then no call of `next`
  -- ever returns from then on, however the exchange is used.
  pub poll_unanswered :
      (xs : List T) (s : S) {e f : Exchange S T} (rest : List Signal)
      → ((t : S) → Yields op (op.reset t) xs)
      → Yields op s xs
      → Reach op (new_exchange s) e
      → e.place ≡ polling
      → e.signals.xs ≡ reset_signal ∷ rest
      → Reach op (poll e) f
      → f.answers ≡ []
  poll_unanswered xs s {e} {f} rest restarts y r at c later =
      let k = Reach-IsFaithful op xs restarts s y r in
      let less : e.child_resets < e.num_resets = ground (arith, k.counted, at, c) in
      (Reach-IsLost later (poll-IsLost e rest c k.stamps less (k.stale less))).silent
