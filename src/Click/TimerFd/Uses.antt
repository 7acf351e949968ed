-- ===== src/Click/TimerFd/Uses.antt =====
-- What a program does with timer descriptors, one operation after the other.
use lattice_flow.Base.{
  ℕ, ◌≡◌, refl, subst, arith, false, ◌&&◌, Option, none, some, List, [], ◌∷◌, ◌+◌, ◌*◌, ◌<◌,
  nat_beq, Bool-cases, Option-cases, inl, inr,
}
use lattice_flow.Std.Update.{update}
use lattice_flow.Click.TimerFd.{
  TimerFileDescriptor, World, setting, construct, destroy, move_construct, swap, assign, second,
  nanoseconds_to_timespec,
}
use lattice_flow.Click.TimerFd.Ownership.{
  IsOwned, construct-IsOwned, drop-IsOwned, close-IsOwned, move-IsOwned, swap-IsOwned,
}

pub data Use : Type 0 where
  constructs : ℕ → ℕ → ℕ → ℕ → Use
  destroys : ℕ → Use
  moves : ℕ → ℕ → Use
  swaps : ℕ → ℕ → Use
  assigns : ℕ → ℕ → ℕ → Use

abbrev pub perform : Use → World → Option World
perform (constructs a value interval fd) w = construct a value interval (some fd) w
perform (destroys a) w = destroy a w
perform (moves a from) w = move_construct a from w
perform (swaps lhs rhs) w = swap lhs rhs w
perform (assigns a from timer) w = assign a from timer w

abbrev pub perform_all : List Use → World → Option World
perform_all [] w = some w
perform_all (use1 ∷ uses) w = elim (perform use1 w) [ none ↦ none | some v ↦ perform_all uses v ]

abbrev pub Lives : ℕ → World → Type 0
Lives a w = (t : TimerFileDescriptor) × (w.objects a ≡ some t)

abbrev pub IsFree : ℕ → World → Type 0
IsFree a w = w.objects a ≡ none

-- New objects are made where there is none, others are used while they live, one of the two durations
-- is not zero, and `timerfd_create` returns a descriptor that is not open.
abbrev pub Legal : Use → World → Type 0
Legal (constructs a value interval fd) w =
    IsFree a w × (w.kernel fd ≡ none) × ((nat_beq value 0 && nat_beq interval 0) ≡ false)
Legal (destroys a) w = Lives a w
Legal (moves a from) w = IsFree a w × Lives from w
Legal (swaps lhs rhs) w = Lives lhs w × Lives rhs w
Legal (assigns a from timer) w = Lives a w × Lives from w × IsFree timer w

abbrev pub LegalAll : List Use → World → Type 0
LegalAll [] w = Unit
LegalAll (use1 ∷ uses) w =
    Legal use1 w × (elim (perform use1 w) [ none ↦ Unit | some v ↦ LegalAll uses v ])

abbrev pub Succeeds : Option World → Type 0
Succeeds r = (v : World) × (r ≡ some v) × IsOwned v

destroy_total : (a : ℕ) (w : World) → IsOwned w → Lives a w → Succeeds (destroy a w)
unfolding destroy
destroy_total a w h (t, e) = elim (Option-cases t.timerfd) [
  | inl d ↦ (
    record w { objects = update a none w.objects },
    rw (destroy, e, d) refl,
    drop-IsOwned a t w e d h,
  )
  | inr (fd, d) ↦ (
    record { objects = update a none w.objects; kernel = update fd none w.kernel },
    rw (destroy, e, d, h.set a fd t (e, d)) refl,
    close-IsOwned a fd t w (e, d) h,
  )
]

-- The objects after the move constructor and after `swap`.
abbrev moved : ℕ → ℕ → TimerFileDescriptor → World → World
moved a from t w = record w {
  objects = update from (some (record t { timerfd = none })) (update a (some t) w.objects);
}

abbrev swapped : ℕ → ℕ → TimerFileDescriptor → TimerFileDescriptor → World → World
swapped a b t u w = record w { objects = update b (some t) (update a (some u) w.objects) }

move_construct_lem :
    (a from : ℕ) (t : TimerFileDescriptor) (w : World)
    → w.objects from ≡ some t
    → move_construct a from w ≡ some (moved a from t w)
unfolding move_construct
move_construct_lem a from t w e = rw (move_construct, e) refl

swap_lem :
    (a b : ℕ) (t u : TimerFileDescriptor) (w : World)
    → w.objects a ≡ some t
    → w.objects b ≡ some u
    → swap a b w ≡ some (swapped a b t u w)
unfolding swap
swap_lem a b t u w e f = rw (swap, e, f) refl

-- The object that is assigned to is still there when its parameter has been made, even if it is the
-- one that was moved from.
moved-Lives :
    (a from timer : ℕ) (t : TimerFileDescriptor) (w : World)
    → Lives a w
    → IsFree timer w
    → Lives a (moved timer from t w)
moved-Lives a from timer t w (u, e) g = elim (Bool-cases (nat_beq from a)) [
  | inl same ↦ (record t { timerfd = none }, ground arith)
  | inr other ↦ (u, ground arith)
]

assign_total :
    (a from timer : ℕ) (w : World)
    → IsOwned w
    → Legal (assigns a from timer) w
    → Succeeds (assign a from timer w)
unfolding assign
assign_total a from timer w h ((u, e), (t, f), g) =
    let (x, at) = moved-Lives a from timer t w (u, e) g in
    let w1 = moved timer from t w in
    let there : w1.objects timer ≡ some t = ground arith in
    let w2 = swapped a timer x t w1 in
    let h2 = swap-IsOwned a timer x t w1 at there (move-IsOwned timer from t w g f h) in
    let (v, ran, owned) = destroy_total timer w2 h2 (x, ground arith) in
    (
      v,
      rw (assign, move_construct_lem timer from t w f, swap_lem a timer x t w1 at there) ran,
      owned,
    )

perform_total : (use1 : Use) (w : World) → IsOwned w → Legal use1 w → Succeeds (perform use1 w)
unfolding construct move_construct
perform_total (constructs a value interval fd) w h (e, f, d) =
    let t : TimerFileDescriptor = record {
      value = value;
      interval = interval;
      timerfd = some fd;
    } in
    (
      record {
        objects = update a (some t) w.objects;
        kernel = update fd (some (setting t)) w.kernel;
      },
      rw (construct, d) refl,
      construct-IsOwned a fd t w e f refl h,
    )
perform_total (destroys a) w h l = destroy_total a w h l
perform_total (moves a from) w h (e, (t, f)) =
    (moved a from t w, move_construct_lem a from t w f, move-IsOwned a from t w e f h)
perform_total (swaps lhs rhs) w h ((t, e), (u, f)) =
    (swapped lhs rhs t u w, swap_lem lhs rhs t u w e f, swap-IsOwned lhs rhs t u w e f h)
perform_total (assigns a from timer) w h l = assign_total a from timer w h l

abbrev pub new_world : World
new_world = record { objects = λ a. none; kernel = λ fd. none }

perform_all_total :
    (uses : List Use) (w : World) → IsOwned w → LegalAll uses w → Succeeds (perform_all uses w)
perform_all_total [] w h l = (w, refl, h)
perform_all_total (use1 ∷ uses) w h (l, ls) =
    let (v, e, k) = perform_total use1 w h l in
    let rest : LegalAll uses v =
      subst (λ r. elim r [ none ↦ Unit | some u ↦ LegalAll uses u ]) e ls in
    rw (perform_all, e) (perform_all_total uses v k rest)

new_world-IsOwned : IsOwned new_world
new_world-IsOwned = record {
  owned = λ fd s k. ground arith;
  set = λ a fd t o. ground arith;
  alone = λ a b fd t u o p. ground arith;
}

all_closed : (w : World) → IsOwned w → ((a : ℕ) → IsFree a w) → (fd : ℕ) → w.kernel fd ≡ none
all_closed w h free fd = elim (Option-cases (w.kernel fd)) [
  | inl e ↦ e
  | inr (s, e) ↦ let (a, t, o) = h.owned fd s e in absurd (ground (arith, free a))
]

-- Timer descriptors are owned. However objects are made, moved, swapped, assigned and destroyed, from
-- when there is none, as long as only living objects are used and new ones are made elsewhere, as one
-- of the durations of a new one is not zero, and as `timerfd_create` returns a descriptor that is not
-- open: no assertion fails and no descriptor is closed that is not open; each open descriptor is that
-- of exactly one object, and set to its durations; and when no object is left, none is open.
pub perform_all-IsOwned :
    (uses : List Use)
    → LegalAll uses new_world
    → (v : World) × (perform_all uses new_world ≡ some v)
      × IsOwned v
      × (((a : ℕ) → IsFree a v) → (fd : ℕ) → v.kernel fd ≡ none)
perform_all-IsOwned uses l =
    let (v, e, h) = perform_all_total uses new_world new_world-IsOwned l in
    (v, e, h, λ free fd. all_closed v h free fd)

-- What the kernel is given is the duration, with less than a second in its nanoseconds.
nanoseconds_to_timespec_lem :
    (d : ℕ)
    → ((nanoseconds_to_timespec d).tv_sec * second + (nanoseconds_to_timespec d).tv_nsec ≡ d)
      × ((nanoseconds_to_timespec d).tv_nsec < second)
unfolding nanoseconds_to_timespec
nanoseconds_to_timespec_lem d = (omega arith, omega arith)
