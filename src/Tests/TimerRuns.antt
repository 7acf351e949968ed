-- ===== src/Tests/TimerRuns.antt =====
-- Turns of the driver: src/click/driver.cc and src/click/timer.h.
use mathlib.Core.List.{Perm}
use lattice_flow.Base.{
  ℕ, ◌+◌, ◌≡◌, refl, Bool, true, false, List, [], ◌∷◌, ◌++◌, Option, some, map, nat_beq, nat_eq,
}
use lattice_flow.Std.Assoc.{keys}
use lattice_flow.Click.Driver.{Driver, turn}
use lattice_flow.Click.Driver.Turns.{turn-survivors}
use lattice_flow.Click.Timer.{Timer, Event, pushes, turns, happen_all}
use lattice_flow.Click.Timer.Fired.{values}
use lattice_flow.Click.Timer.Tracking.{holding}
use lattice_flow.Click.Timer.Delivery.{all_pushed, happen_all-pushed}

-- Handlers that are numbers: 1 goes off once, and registers another.
abbrev item : ℕ → ℕ
item h = h + 100

abbrev is_one : ℕ → Bool
is_one h = nat_beq h 1

abbrev run_number : ℕ → ℕ → Option (ℕ × List ℕ)
run_number h w = some (w + h, (h + 10) ∷ [])

abbrev two_handlers : Driver ℕ ℕ
two_handlers = record { event_handlers = 1 ∷ 2 ∷ []; pollitems = 101 ∷ 102 ∷ [] }

turn-survivors_example :
    (d : Driver ℕ ℕ) × (turn item is_one run_number (true ∷ true ∷ []) two_handlers 0 ≡ some (d, 3))
    × (d.event_handlers ≡ 11 ∷ 12 ∷ 2 ∷ [])
    × (d.pollitems ≡ map item d.event_handlers)
turn-survivors_example =
    turn-survivors item is_one run_number (λ h w. ((w + h, (h + 10) ∷ []), refl)) (true ∷ true ∷ [])
      two_handlers 0 refl

abbrev events : List (Event ℕ)
events = pushes 7 ∷ pushes 8 ∷ turns (false ∷ true ∷ []) ∷ pushes 7 ∷ turns (true ∷ []) ∷ []

happen_all-pushed_example :
    (d : Driver ℕ ℕ) × (t : Timer ℕ) × (happen_all item events
        (holding 0 [] [])
        (record { event_handlers = []; pollitems = [] })
      ≡ some (d, t))
    × (d.event_handlers ≡ keys t.timer_event_handlers)
    × Perm (all_pushed events) (t.pushed ++ values t.timer_event_handlers)
happen_all-pushed_example = happen_all-pushed item events
