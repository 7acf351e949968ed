-- ===== src/Tests/ConcurrencyRuns.antt =====
-- Calls of several threads: src/concurrency.
use lattice_flow.Base.{◌≡◌, refl, arith, ℕ, ◌≤◌, List, [], ◌∷◌, ◌++◌, none, some}
use lattice_flow.Concurrency.Calls.{Call, pushes, pops, tries, all_pushed, NoClear, run}
use lattice_flow.Concurrency.Queue
use lattice_flow.Concurrency.Queue.{Queue, run-fifo}
use lattice_flow.Concurrency.BoundedQueue
use lattice_flow.Concurrency.BoundedQueue.{BoundedQueue, IsBounded, run-IsBounded, run-fifo_bounded}
use lattice_flow.Concurrency.Barrier
use lattice_flow.Concurrency.Barrier.{
  Barrier, Reach, here, next, enters, resumes, wakes, IsSafe, Reach-IsSafe, resume_all,
  resume_all-passed,
}

abbrev calls : List (Call ℕ)
calls = pushes 1 ∷ pushes 2 ∷ pops ∷ tries ∷ tries ∷ pushes 3 ∷ []

abbrev no_values : Queue ℕ
no_values = record { xs = [] }

calls-NoClear : NoClear calls
calls-NoClear = ((λ n. n), ((λ n. n), ((λ n. n), ((λ n. n), ((λ n. n), ((λ n. n), tt))))))

calls_lem : run Queue.step calls no_values ≡ some (1 ∷ 2 ∷ [], record { xs = 3 ∷ [] })
unfolding run Queue.step Queue.push Queue.pop Queue.try_pop
calls_lem = refl

run-fifo_example : [] ++ all_pushed calls ≡ (1 ∷ 2 ∷ []) ++ 3 ∷ []
run-fifo_example =
    run-fifo calls no_values (record { xs = 3 ∷ [] }) (1 ∷ 2 ∷ []) calls-NoClear calls_lem

abbrev no_room : BoundedQueue ℕ
no_room = record { xs = 7 ∷ []; capacity = 1 }

abbrev swaps : List (Call ℕ)
swaps = pops ∷ pushes 8 ∷ []

swaps_lem :
    run BoundedQueue.step swaps no_room ≡ some (7 ∷ [], record { xs = 8 ∷ []; capacity = 1 })
unfolding run BoundedQueue.step BoundedQueue.push BoundedQueue.pop
swaps_lem = refl

push_full : BoundedQueue.push 8 no_room ≡ none
unfolding BoundedQueue.push
push_full = refl

no_room-IsBounded : IsBounded 1 no_room
no_room-IsBounded = (omega arith, refl)

run-IsBounded_example : IsBounded {T = ℕ} 1 (record { xs = 8 ∷ []; capacity = 1 })
run-IsBounded_example =
    run-IsBounded 1 swaps no_room (record { xs = 8 ∷ []; capacity = 1 }) (7 ∷ []) no_room-IsBounded
      swaps_lem

-- Two threads at a barrier for two.
abbrev both : Barrier
both = Barrier.enter (Barrier.enter (Barrier.init 2))

Reach-both : Reach (Barrier.init 2) both
Reach-both = next (next here enters) enters

Reach-IsSafe_example : IsSafe both
Reach-IsSafe_example = Reach-IsSafe 2 Reach-both

both_entered : both.threshold ≤ both.count
unfolding Barrier.enter Barrier.init
both_entered = omega arith

resume_all-passed_example : (resume_all both.awake both).passed ≡ both.count
resume_all-passed_example = resume_all-passed 2 Reach-both both_entered
