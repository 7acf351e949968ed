-- ===== src/Flow/Exchange.antt =====
-- src/flow/exchange.h: a thread of its own reads the child and fills a buffer. The two counters of
-- resets are natural numbers.
use lattice_flow.Base.{ℕ, ◌+◌, ◌≡◌, Option, none, some, List, [], ◌∷◌, ◌++◌, nat_beq, if◌then◌else◌}
use lattice_flow.Concurrency.Queue.{Queue, push, pop, try_pop, clear}
use lattice_flow.Flow.Operator.{Operator}
pub mod Stream
pub mod Faithful
pub mod Answers
pub mod Resets

pub data Signal : Type 0 where
  reset_signal : Signal
  die : Signal

-- The next call of the child's thread on a shared queue: the push of what the child gives, the
-- `try_pop`, the `clear` and the `pop` of the signals; or the thread has returned.
pub data Place : Type 0 where
  reading : Place
  polling : Place
  clearing : Place
  waiting : Place
  exited : Place

-- The owner is outside the calls, in the loop of `next`, or in the destructor.
pub data Caller : Type 0 where
  outside : Caller
  in_next : Caller
  closing : Caller

-- `child_resets` is the `num_resets` of the child's thread; `answers` are the values that `next` has
-- returned since the last `reset`.
pub record Exchange {ℓ κ} (S : Type ℓ) (T : Type κ) : Type (ℓ ⊔ κ) where
  pub child : S
  pub child_resets : ℕ
  pub place : Place
  pub num_resets : ℕ
  pub buffer : Queue (ℕ × Option T)
  pub signals : Queue Signal
  pub caller : Caller
  pub answers : List (Option T)

module _ {ℓ κ} {S : Type ℓ} {T : Type κ} where
  unfoldable pub new_exchange : S → Exchange S T
  new_exchange child = record {
    child = child;
    child_resets = 0;
    place = reading;
    num_resets = 0;
    buffer = record { xs = [] };
    signals = record { xs = [] };
    caller = outside;
    answers = [];
  }

  unfoldable pub begin_next : Exchange S T → Exchange S T
  begin_next e = record e { caller = in_next }

  -- A `pop` of the buffer in `next`, and its comparison; `none`: the call waits.
  unfoldable pub take_buffered : Exchange S T → Option (Exchange S T)
  take_buffered e = elim (pop e.buffer) [
    | none ↦ none
    | some ((stamp, t), buffer) ↦
        if nat_beq stamp e.num_resets
        then some (record e { buffer = buffer; caller = outside; answers = e.answers ++ t ∷ [] })
        else some (record e { buffer = buffer })
  ]

  unfoldable pub reset : Exchange S T → Exchange S T
  reset e = record e {
    num_resets = e.num_resets + 1;
    signals = push reset_signal e.signals;
    answers = [];
  }

  unfoldable pub destroy : Exchange S T → Exchange S T
  destroy e = record e { signals = push die e.signals; caller = closing }

  -- A signal that is read between two tuples: the case `RESET` has no `break`.
  unfoldable pub poll : Exchange S T → Exchange S T
  poll e =
      let (signal, signals) = try_pop e.signals in
      elim signal [
        | none ↦ record e { place = reading }
        | some reset_signal ↦ record e { signals = signals; place = clearing }
        | some die ↦ record e { signals = signals; place = exited }
      ]

  -- A signal that is read at the end of the child; `none`: the thread waits for one.
  unfoldable pub wait : (S → S) → Exchange S T → Option (Exchange S T)
  wait child_reset e = elim (pop e.signals) [
    | none ↦ none
    | some (reset_signal, signals) ↦ some (record e {
      child = child_reset e.child;
      child_resets = e.child_resets + 1;
      signals = signals;
      place = reading;
    })
    | some (die, signals) ↦ some (record e { signals = signals; place = exited })
  ]

  unfoldable pub clear_buffer : (S → S) → Exchange S T → Exchange S T
  clear_buffer child_reset e = record e {
    buffer = clear e.buffer;
    child = child_reset e.child;
    child_resets = e.child_resets + 1;
    place = exited;
  }

  unfoldable pub read_child : (S → Option T × S) → Exchange S T → Exchange S T
  read_child next e =
      let (t, child) = next e.child in
      record e {
        child = child;
        buffer = push (e.child_resets, t) e.buffer;
        place = elim t [ none ↦ waiting | some x ↦ polling ];
      }

  pub data Step (op : Operator S T) (e : Exchange S T) : Exchange S T → Type (ℓ ⊔ κ) where
    begins : e.caller ≡ outside → Step op e (begin_next e)
    takes : {f : Exchange S T} → e.caller ≡ in_next → take_buffered e ≡ some f → Step op e f
    resets : e.caller ≡ outside → Step op e (reset e)
    destroys : e.caller ≡ outside → Step op e (destroy e)
    reads : e.place ≡ reading → Step op e (read_child op.next e)
    polls : e.place ≡ polling → Step op e (poll e)
    clears : e.place ≡ clearing → Step op e (clear_buffer op.reset e)
    waits : {f : Exchange S T} → e.place ≡ waiting → wait op.reset e ≡ some f → Step op e f

  pub data Reach (op : Operator S T) (e : Exchange S T) : Exchange S T → Type (ℓ ⊔ κ) where
    here : Reach op e e
    next : {f g : Exchange S T} → Reach op e f → Step op f g → Reach op e g
