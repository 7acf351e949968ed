-- ===== src/Click/Timer.antt =====
-- src/click/timer.h, on the driver: how time passes is not modelled, so that any timers may have
-- expired at a turn. A `TimerEventHandler` is its value `x_`, under its `timer_id_`.
use mathlib.Core.List.{append_assoc}
use lattice_flow.Base.{
  ℕ, suc, ◌+◌, ◌<◌, ◌≡◌, refl, sym, ◌∙◌, ap, Bool, true, false, Option, none, some, List, [], ◌∷◌,
  ◌++◌, map, arith, nat_eq, ◌==◌, if◌then◌else◌,
}
use lattice_flow.Std.Assoc.{Assoc, find, keys, add, erase}
use lattice_flow.Click.Driver.{Driver, register_event_handler, turn}
pub mod Fired
pub mod Tracking
pub mod Delivery

-- `timer_id_` and `timer_event_handlers_`; `pushed` are the values that went to `downstream_`.
pub record Timer {ℓ} (T : Type ℓ) : Type ℓ where
  pub timer_id : ℕ
  pub timer_event_handlers : Assoc ℕ T
  pub pushed : List T

-- A timer goes off once.
abbrev pub is_one_off : ℕ → Bool
is_one_off id = true

module _ {ℓ} {T : Type ℓ} where
  -- `Run` of the handler with this id. It is undefined if the map does not hold the handler.
  unfoldable pub run : ℕ → Timer T → Option (Timer T × List ℕ)
  run id t = elim (find id t.timer_event_handlers) [
    | none ↦ none
    | some x ↦ some (
      record t {
        timer_event_handlers = erase id t.timer_event_handlers;
        pushed = t.pushed ++ x ∷ [];
      },
      [],
    )
  ]

  -- `insert` leaves an entry that is there as it is. The poll item is that of the descriptor.
  unfoldable pub push {κ} : {P : Type κ} → (ℕ → P) → T → Timer T → Driver ℕ P → Timer T × Driver ℕ P
  push get_pollitem x t d = (
    record t {
      timer_id = t.timer_id + 1;
      timer_event_handlers = elim (find t.timer_id t.timer_event_handlers) [
        | none ↦ add t.timer_id x t.timer_event_handlers
        | some y ↦ t.timer_event_handlers
      ];
    },
    register_event_handler get_pollitem is_one_off run t.timer_id d,
  )

-- What happens to a timer and its driver: a value is pushed, or the driver takes a turn in which the
-- timers with these flags have expired.
pub data Event {ℓ} (T : Type ℓ) : Type ℓ where
  pushes : T → Event T
  turns : List Bool → Event T

module _ {ℓ κ} {T : Type ℓ} {P : Type κ} (get_pollitem : ℕ → P) where
  abbrev pub happen : Event T → Timer T → Driver ℕ P → Option (Driver ℕ P × Timer T)
  happen (pushes x) t d = let (t', d') = push get_pollitem x t d in some (d', t')
  happen (turns flags) t d = turn get_pollitem is_one_off run flags d t

  unfoldable pub happen_all : List (Event T) → Timer T → Driver ℕ P → Option (Driver ℕ P × Timer T)
  happen_all [] t d = some (d, t)
  happen_all (event ∷ events) t d = elim (happen event t d) [
    | none ↦ none
    | some (d', t') ↦ happen_all events t' d'
  ]
