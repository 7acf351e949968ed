-- ===== src/Tests/ThreadRuns.antt =====
-- Runs of a thread pool and of an exchange: src/concurrency/thread_pool.cc and src/flow/exchange.h.
use lattice_flow.Base.{ℕ, ◌<◌, ◌≡◌, ◌⊎◌, refl, List, [], ◌∷◌, ◌++◌, Option, none, some, arith}
use lattice_flow.Concurrency.Queue
use lattice_flow.Concurrency.ThreadPool
use lattice_flow.Concurrency.ThreadPool.{ThreadPool, new_pool, submit, push_stop, take_work, finish}
use lattice_flow.Concurrency.ThreadPool.Stops.{stopped-submitted, stops_progress, empties}
use lattice_flow.Flow.Operator.{Operator, Yields, iterator, iterator_next, iterator-Yields}
use lattice_flow.Flow.Exchange
use lattice_flow.Flow.Exchange.{
  Exchange, Signal, reset_signal, new_exchange, begin_next, take_buffered, reset, poll,
  clear_buffer, read_child, Reach, here, next, begins, takes, resets, reads, polls, clears, waiting,
  polling,
}
use lattice_flow.Flow.Exchange.Stream.{stream}
use lattice_flow.Flow.Exchange.Answers.{answers_prefix, next_waits}
use lattice_flow.Flow.Exchange.Resets.{poll_unanswered}

-- A pool of one thread with one task, whose destructor has begun.
abbrev closing : ThreadPool ℕ
closing = push_stop (submit 7 (new_pool 1))

Reach-closing : ThreadPool.Reach (new_pool 1) closing
unfolding new_pool submit
Reach-closing =
    ThreadPool.Reach.next (ThreadPool.Reach.next ThreadPool.Reach.here (ThreadPool.Step.submits 7))
      (ThreadPool.Step.closes (omega arith))

closing_stops : closing.stops ≡ 1
unfolding new_pool submit push_stop
closing_stops = refl

closing_stopped : closing.stopped < 1
unfolding new_pool submit push_stop
closing_stopped = omega arith

stops_progress_example :
    (0 < closing.running) ⊎ ((0 < closing.idle) × (q : ThreadPool ℕ) × (take_work closing ≡ some q))
stops_progress_example = stops_progress 1 Reach-closing closing_stops closing_stopped

-- The task has run, and the thread has stopped.
abbrev closed : ThreadPool ℕ
closed = record {
  num_threads = 1;
  work = record { xs = [] };
  idle = 0;
  running = 0;
  stopped = 1;
  started = 7 ∷ [];
  submitted = 7 ∷ [];
  stops = 1;
}

Reach-closed : ThreadPool.Reach (new_pool 1) closed
unfolding new_pool submit push_stop take_work finish Queue.push Queue.pop
Reach-closed =
    ThreadPool.Reach.next
      (ThreadPool.Reach.next
        (ThreadPool.Reach.next Reach-closing (
          ThreadPool.Step.takes
            {q = record closed { work = record { xs = none ∷ [] }; running = 1; stopped = 0 }}
            (omega arith) refl))
        (ThreadPool.Step.finishes (omega arith)))
      (ThreadPool.Step.takes (omega arith) refl)

stopped-submitted_example :
    ((more : List ℕ) × (closed.started ≡ closed.submitted ++ more))
    × (closed.running ≡ 0)
    × (empties closed.work.xs ≡ 0)
stopped-submitted_example = stopped-submitted 1 Reach-closed (omega arith) refl

-- An exchange over an iterator of two numbers.
abbrev numbers : Operator (List ℕ) ℕ
numbers = iterator (1 ∷ 2 ∷ [])

numbers-Yields : (it : List ℕ) → Yields numbers (numbers.reset it) (1 ∷ 2 ∷ [])
numbers-Yields it = iterator-Yields (1 ∷ 2 ∷ []) it

abbrev fresh : Exchange (List ℕ) ℕ
fresh = new_exchange (1 ∷ 2 ∷ [])

abbrev read : Exchange (List ℕ) ℕ → Exchange (List ℕ) ℕ
read = read_child numbers.next

-- The thread of the child has read one number.
abbrev one_read : Exchange (List ℕ) ℕ
one_read = read fresh

Reach-one_read : Reach numbers fresh one_read
unfolding new_exchange
Reach-one_read = next here (reads refl)

-- It has read both numbers, and the end.
abbrev all_read : Exchange (List ℕ) ℕ
all_read = read (poll (read (poll one_read)))

Reach-all_read : Reach numbers fresh all_read
unfolding new_exchange read_child iterator_next Queue.push Queue.try_pop poll
Reach-all_read =
    next (next (next (next Reach-one_read (polls refl)) (reads refl)) (polls refl)) (reads refl)

abbrev answered : List (Option ℕ) → List (ℕ × Option ℕ) → Exchange (List ℕ) ℕ
answered answers rest = record {
  child = [];
  child_resets = 0;
  place = waiting;
  num_resets = 0;
  buffer = record { xs = rest };
  signals = record { xs = [] };
  caller = Exchange.outside;
  answers = answers;
}

Reach-answered_one : Reach numbers fresh (answered (some 1 ∷ []) ((0, some 2) ∷ (0, none) ∷ []))
unfolding new_exchange read_child iterator_next Queue.push Queue.pop Queue.try_pop poll begin_next
    take_buffered
Reach-answered_one = next (next Reach-all_read (begins refl)) (takes refl refl)

answers_prefix_example : (more : List (Option ℕ)) × (some 1 ∷ more ≡ stream (1 ∷ 2 ∷ []))
answers_prefix_example =
    answers_prefix numbers (1 ∷ 2 ∷ []) numbers-Yields (1 ∷ 2 ∷ []) (numbers-Yields [])
      Reach-answered_one

Reach-answered_all : Reach numbers fresh (answered (some 1 ∷ some 2 ∷ none ∷ []) [])
unfolding begin_next take_buffered Queue.pop
Reach-answered_all =
    next
      (next
        (next (next Reach-answered_one (begins refl))
          (takes {f = answered (some 1 ∷ some 2 ∷ []) ((0, none) ∷ [])} refl refl))
        (begins refl))
      (takes refl refl)

next_waits_example : (answered (some 1 ∷ some 2 ∷ none ∷ []) []).answers ≡ stream (1 ∷ 2 ∷ [])
next_waits_example =
    next_waits numbers (1 ∷ 2 ∷ []) numbers-Yields (1 ∷ 2 ∷ []) (numbers-Yields [])
      Reach-answered_all refl refl refl

-- A reset while the thread is between two numbers.
abbrev interrupted : Exchange (List ℕ) ℕ
interrupted = reset one_read

Reach-interrupted : Reach numbers fresh interrupted
unfolding new_exchange read_child
Reach-interrupted = next Reach-one_read (resets refl)

interrupted_place : interrupted.place ≡ polling
unfolding new_exchange read_child reset iterator_next
interrupted_place = refl

interrupted_signals : interrupted.signals.xs ≡ reset_signal ∷ []
unfolding new_exchange read_child reset Queue.push
interrupted_signals = refl

Reach-cleared : Reach numbers (poll interrupted) (clear_buffer numbers.reset (poll interrupted))
unfolding new_exchange read_child reset poll Queue.push Queue.try_pop
Reach-cleared = next here (clears refl)

poll_unanswered_example : (clear_buffer numbers.reset (poll interrupted)).answers ≡ []
poll_unanswered_example =
    poll_unanswered numbers (1 ∷ 2 ∷ []) (1 ∷ 2 ∷ []) [] numbers-Yields (numbers-Yields [])
      Reach-interrupted interrupted_place interrupted_signals Reach-cleared
