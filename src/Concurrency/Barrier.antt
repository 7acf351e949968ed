-- ===== src/Concurrency/Barrier.antt =====
-- src/concurrency/barrier.h and barrier.cc.
use lattice_flow.Base.{ℕ, zero, suc, ◌+◌, ◌-◌, ◌≤◌, ◌<◌, ◌≡◌, refl, arith, ltb, leb, if◌then◌else◌}

-- `count_` and `threshold_`; the threads that sleep in `wait`, those that it has woken and that have
-- yet to test the count again, and those that `enter` has let through.
pub record Barrier : Type 0 where
  pub count : ℕ
  pub threshold : ℕ
  pub asleep : ℕ
  pub awake : ℕ
  pub passed : ℕ

unfoldable pub init : ℕ → Barrier
init threshold = record { count = 0; threshold = threshold; asleep = 0; awake = 0; passed = 0 }

-- `enter` up to its first `wait`, or to its end.
unfoldable pub enter : Barrier → Barrier
enter b =
    if leb b.threshold (b.count + 1)
    then record b {
      count = b.count + 1;
      asleep = 0;
      awake = b.awake + b.asleep;
      passed = b.passed + 1;
    }
    else record b { count = b.count + 1; asleep = b.asleep + 1 }

-- A thread that was woken tests the count: it waits again, or it leaves.
unfoldable pub resume : Barrier → Barrier
resume b =
    if ltb b.count b.threshold
    then record b { awake = b.awake - 1; asleep = b.asleep + 1 }
    else record b { awake = b.awake - 1; passed = b.passed + 1 }

-- `wait` may return with no notification.
unfoldable pub wake_spuriously : Barrier → Barrier
wake_spuriously b = record b { asleep = b.asleep - 1; awake = b.awake + 1 }

pub data Step (b : Barrier) : Barrier → Type 0 where
  enters : Step b (enter b)
  resumes : 0 < b.awake → Step b (resume b)
  wakes : 0 < b.asleep → Step b (wake_spuriously b)

pub data Reach (b : Barrier) : Barrier → Type 0 where
  here : Reach b b
  next : {c d : Barrier} → Reach b c → Step c d → Reach b d

pub record IsSafe (b : Barrier) : Type 0 where
  pub counted : b.count ≡ b.asleep + b.awake + b.passed
  pub closed : b.count < b.threshold → b.passed ≡ 0
  pub open_wide : b.threshold ≤ b.count → b.asleep ≡ 0

init-IsSafe : (n : ℕ) → IsSafe (init n)
unfolding init
init-IsSafe n = ground arith

Step-IsSafe : {b c : Barrier} → Step b c → IsSafe b → IsSafe c
unfolding enter resume wake_spuriously
Step-IsSafe enters s = ground arith
Step-IsSafe (resumes h) s = ground arith
Step-IsSafe (wakes h) s = ground arith

-- In every run of a new barrier, each thread that has entered sleeps, is awake or has passed; none has
-- passed while fewer threads than the threshold have entered; and from the moment that as many have
-- entered, none sleeps: no wakeup is lost.
pub Reach-IsSafe : (n : ℕ) {b : Barrier} → Reach (init n) b → IsSafe b
Reach-IsSafe n here = init-IsSafe n
Reach-IsSafe n (next r st) = Step-IsSafe st (Reach-IsSafe n r)

-- Let every thread that is awake run.
unfoldable pub resume_all : ℕ → Barrier → Barrier
resume_all zero b = b
resume_all (suc k) b = resume_all k (resume b)

drain :
    (k : ℕ) (b : Barrier)
    → b.awake ≡ k
    → b.asleep ≡ 0
    → b.threshold ≤ b.count
    → b.count ≡ b.asleep + b.awake + b.passed
    → (resume_all k b).passed ≡ b.count
unfolding resume_all resume
drain zero b w a h c = omega arith
drain (suc k) b w a h c = ground (arith, drain k (record b { awake = k; passed = b.passed + 1 }))

-- Once as many threads as the threshold have entered a new barrier, then in whatever order it came
-- there, the threads that are awake only have to run, once each, and all that entered have passed.
pub resume_all-passed :
    (n : ℕ) {b : Barrier}
    → Reach (init n) b
    → b.threshold ≤ b.count
    → (resume_all b.awake b).passed ≡ b.count
resume_all-passed n {b} r h =
    let s = Reach-IsSafe n r in drain b.awake b refl (s.open_wide h) h s.counted
