-- ===== src/Tests/TimerFdRuns.antt =====
-- Timer descriptors that are made, assigned and destroyed: src/click/timer_file_descriptor.cc.
use lattice_flow.Base.{ℕ, ◌≡◌, refl, Option, some, none, List, [], ◌∷◌}
use lattice_flow.Click.TimerFd.{
  TimerFileDescriptor, World, construct, destroy, move_construct, swap, assign,
}
use lattice_flow.Click.TimerFd.Ownership.{IsOwned}
use lattice_flow.Click.TimerFd.Uses.{
  Use, constructs, destroys, assigns, perform_all, new_world, IsFree, perform_all-IsOwned,
}

-- The first object takes over the descriptor of the second, and its own is closed.
abbrev taken_over : List Use
taken_over =
    constructs 0 5000000001 0 3 ∷ constructs 1 7 7 4 ∷ assigns 0 1 2 ∷ destroys 0 ∷ destroys 1 ∷ []

abbrev timer : ℕ → ℕ → Option ℕ → TimerFileDescriptor
timer value interval fd = record { value = value; interval = interval; timerfd = fd }

perform_all-IsOwned_example :
    (v : World) × (perform_all taken_over new_world ≡ some v)
    × IsOwned v
    × (((a : ℕ) → IsFree a v) → (fd : ℕ) → v.kernel fd ≡ none)
unfolding construct assign move_construct swap destroy
perform_all-IsOwned_example = perform_all-IsOwned taken_over (
  (refl, refl, refl),
  (
    (refl, refl, refl),
    (
      ((timer 5000000001 0 (some 3), refl), (timer 7 7 (some 4), refl), refl),
      ((timer 7 7 (some 4), refl), ((timer 7 7 none, refl), tt)),
    ),
  ),
)
