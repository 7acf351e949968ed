-- ===== src/Concurrency/ThreadPool.antt =====
-- src/concurrency/thread_pool.h and thread_pool.cc. Each thread is in `work_.pop()`, runs a task, or
-- has returned from `DoWork`.
use lattice_flow.Base.{
  ℕ, ◌+◌, ◌-◌, ◌≤◌, ◌<◌, ◌≡◌, Bool, Option, none, some, List, [], ◌∷◌, ◌++◌, nat_beq, if◌then◌else◌,
}
use lattice_flow.Concurrency.Queue.{Queue, push, pop}
pub mod Stops

-- `num_threads` is the size of `threads_`; `idle`, `running` and `stopped` count the threads;
-- `started` are the tasks that have been called, in order. `submitted` are those that were submitted
-- before the destructor began, and `stops` the empty tasks that it has pushed.
pub record ThreadPool {ℓ} (F : Type ℓ) : Type ℓ where
  pub num_threads : ℕ
  pub work : Queue (Option F)
  pub idle : ℕ
  pub running : ℕ
  pub stopped : ℕ
  pub started : List F
  pub submitted : List F
  pub stops : ℕ

module _ {ℓ} {F : Type ℓ} where
  unfoldable pub new_pool : ℕ → ThreadPool F
  new_pool num_threads = record {
    num_threads = num_threads;
    work = record { xs = [] };
    idle = num_threads;
    running = 0;
    stopped = 0;
    started = [];
    submitted = [];
    stops = 0;
  }

  -- The owner, or a task that runs.
  unfoldable pub submit : F → ThreadPool F → ThreadPool F
  submit f p = record p {
    work = push (some f) p.work;
    submitted = if nat_beq p.stops 0 then p.submitted ++ f ∷ [] else p.submitted;
  }

  -- An iteration of the first loop of the destructor.
  unfoldable pub push_stop : ThreadPool F → ThreadPool F
  push_stop p = record p { work = push none p.work; stops = p.stops + 1 }

  -- A worker, from a `pop` to the call of the task or to its return.
  unfoldable pub take_work : ThreadPool F → Option (ThreadPool F)
  take_work p = elim (pop p.work) [
    | none ↦ none
    | some (none, work) ↦
        some (record p { work = work; idle = p.idle - 1; stopped = p.stopped + 1 })
    | some (some f, work) ↦ some (record p {
      work = work;
      idle = p.idle - 1;
      running = p.running + 1;
      started = p.started ++ f ∷ [];
    })
  ]

  -- The task of a worker returns.
  unfoldable pub finish : ThreadPool F → ThreadPool F
  finish p = record p { idle = p.idle + 1; running = p.running - 1 }

  pub data Step (p : ThreadPool F) : ThreadPool F → Type ℓ where
    submits : (f : F) → Step p (submit f p)
    closes : p.stops < p.num_threads → Step p (push_stop p)
    takes : {q : ThreadPool F} → 0 < p.idle → take_work p ≡ some q → Step p q
    finishes : 0 < p.running → Step p (finish p)

  pub data Reach (p : ThreadPool F) : ThreadPool F → Type ℓ where
    here : Reach p p
    next : {q r : ThreadPool F} → Reach p q → Step q r → Reach p r
