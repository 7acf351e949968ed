-- ===== src/Concurrency/Queue.antt =====
-- src/concurrency/queue.h.
use mathlib.Core.List.{append-nil}
use lattice_flow.Base.{◌≡◌, Option, none, some, List, [], ◌∷◌, ◌++◌, arith}
use lattice_flow.Concurrency.Calls.{
  Call, pushes, pops, tries, clears, pushed, all_pushed, IsClear, NoClear, run, run_fifo,
}

pub record Queue {ℓ} (T : Type ℓ) : Type ℓ where
  pub xs : List T

module _ {ℓ} {T : Type ℓ} where
  unfoldable pub push : T → Queue T → Queue T
  push x q = record { xs = q.xs ++ x ∷ [] }

  -- `none`: an empty queue makes `pop` wait.
  unfoldable pub pop : Queue T → Option (T × Queue T)
  pop q = elim q.xs [ [] ↦ none | x ∷ rest ↦ some (x, record { xs = rest }) ]

  unfoldable pub try_pop : Queue T → Option T × Queue T
  try_pop q = elim q.xs [ [] ↦ (none, q) | x ∷ rest ↦ (some x, record { xs = rest }) ]

  unfoldable pub clear : Queue T → Queue T
  clear q = record { xs = [] }

  unfoldable pub step : Call T → Queue T → Option (List T × Queue T)
  step (pushes x) q = some ([], push x q)
  step pops q = elim (pop q) [ none ↦ none | some (x, q') ↦ some (x ∷ [], q') ]
  step tries q =
      let (x, q') = try_pop q in elim x [ none ↦ some ([], q') | some a ↦ some (a ∷ [], q') ]
  step clears q = some ([], clear q)

  step_fifo :
      (c : Call T) (q r : Queue T) (out : List T)
      → (¬ IsClear c)
      → step c q ≡ some (out, r)
      → q.xs ++ pushed c ≡ out ++ r.xs
  unfolding step push pop try_pop
  step_fifo (pushes x) q r out n h = ground arith
  step_fifo pops q r out n h = ground (arith, append-nil q.xs)
  step_fifo tries q r out n h = ground (arith, append-nil q.xs)
  step_fifo clears q r out n h = absurd (n tt)

  -- First in, first out, for any interleaving of the calls of any threads: if none of the calls
  -- clears the queue, the values taken out, in order, and then those still in the queue are those
  -- that it held before and then those pushed, in order. None is lost or comes twice.
  pub run-fifo :
      (cs : List (Call T)) (q r : Queue T) (out : List T)
      → NoClear cs
      → run step cs q ≡ some (out, r)
      → q.xs ++ all_pushed cs ≡ out ++ r.xs
  run-fifo = run_fifo step (λ q. q.xs) step_fifo
