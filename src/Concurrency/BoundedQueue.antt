-- ===== src/Concurrency/BoundedQueue.antt =====
-- src/concurrency/bounded_queue.h.
use mathlib.Core.List.{append-nil}
use lattice_flow.Base.{
  ℕ, ◌≤◌, ◌≡◌, Option, none, some, List, [], ◌∷◌, ◌++◌, arith, nat_beq, if◌then◌else◌, length,
  length-append,
}
use lattice_flow.Concurrency.Calls.{
  Call, pushes, pops, tries, clears, pushed, all_pushed, IsClear, NoClear, run, run_fifo, run_keeps,
}

pub record BoundedQueue {ℓ} (T : Type ℓ) : Type ℓ where
  pub xs : List T
  pub capacity : ℕ

module _ {ℓ} {T : Type ℓ} where
  -- `none`: a full queue makes `push` wait.
  unfoldable pub push : T → BoundedQueue T → Option (BoundedQueue T)
  push x q =
      if nat_beq (length q.xs) q.capacity then none else some (record q { xs = q.xs ++ x ∷ [] })

  -- `none`: an empty queue makes `pop` wait.
  unfoldable pub pop : BoundedQueue T → Option (T × BoundedQueue T)
  pop q = elim q.xs [ [] ↦ none | x ∷ rest ↦ some (x, record q { xs = rest }) ]

  unfoldable pub try_pop : BoundedQueue T → Option T × BoundedQueue T
  try_pop q = elim q.xs [ [] ↦ (none, q) | x ∷ rest ↦ (some x, record q { xs = rest }) ]

  unfoldable pub clear : BoundedQueue T → BoundedQueue T
  clear q = record q { xs = [] }

  unfoldable pub step : Call T → BoundedQueue T → Option (List T × BoundedQueue T)
  step (pushes x) q = elim (push x q) [ none ↦ none | some q' ↦ some ([], q') ]
  step pops q = elim (pop q) [ none ↦ none | some (x, q') ↦ some (x ∷ [], q') ]
  step tries q =
      let (x, q') = try_pop q in elim x [ none ↦ some ([], q') | some a ↦ some (a ∷ [], q') ]
  step clears q = some ([], clear q)

  step_fifo :
      (c : Call T) (q r : BoundedQueue T) (out : List T)
      → (¬ IsClear c)
      → step c q ≡ some (out, r)
      → q.xs ++ pushed c ≡ out ++ r.xs
  unfolding step push pop try_pop
  step_fifo (pushes x) q r out n h = ground arith
  step_fifo pops q r out n h = ground (arith, append-nil q.xs)
  step_fifo tries q r out n h = ground (arith, append-nil q.xs)
  step_fifo clears q r out n h = absurd (n tt)

  abbrev pub IsBounded : ℕ → BoundedQueue T → Type 0
  IsBounded c q = (length q.xs ≤ q.capacity) × (q.capacity ≡ c)

  step-IsBounded :
      (cap : ℕ) (c : Call T) (q r : BoundedQueue T) (out : List T)
      → IsBounded cap q
      → step c q ≡ some (out, r)
      → IsBounded cap r
  unfolding step push pop try_pop clear
  step-IsBounded cap (pushes x) q r out b h = ground (arith, length-append q.xs (x ∷ []))
  step-IsBounded cap pops q r out b h = ground arith
  step-IsBounded cap tries q r out b h = ground arith
  step-IsBounded cap clears q r out b h = ground arith

  -- First in, first out, for any interleaving of the calls of any threads: if none of the calls
  -- clears the queue, the values taken out, in order, and then those still in the queue are those
  -- that it held before and then those pushed, in order. None is lost or comes twice.
  pub run-fifo_bounded :
      (cs : List (Call T)) (q r : BoundedQueue T) (out : List T)
      → NoClear cs
      → run step cs q ≡ some (out, r)
      → q.xs ++ all_pushed cs ≡ out ++ r.xs
  run-fifo_bounded = run_fifo step (λ q. q.xs) step_fifo

  -- For any interleaving of calls, clears included, a queue that holds at most `capacity` values still
  -- does, and its capacity is the same.
  pub run-IsBounded :
      (cap : ℕ) (cs : List (Call T)) (q r : BoundedQueue T) (out : List T)
      → IsBounded cap q
      → run step cs q ≡ some (out, r)
      → IsBounded cap r
  run-IsBounded cap = run_keeps step (IsBounded cap) (step-IsBounded cap)
