-- ===== src/Click/TimerFd.antt =====
-- src/click/timer_file_descriptor.h and timer_file_descriptor.cc: who owns which descriptor. Objects
-- are at addresses, the kernel keeps what each open descriptor is set to, and the descriptor that
-- `timerfd_create` returns is an argument. Durations are not negative.
pub mod Ownership
pub mod Uses
use lattice_flow.Base.{
  ℕ, ◌*◌, ◌+◌, ◌/◌, ◌%◌, ◌<◌, ◌≡◌, refl, Bool, true, false, ◌&&◌, Option, none, some, if◌then◌else◌,
  nat_beq,
}
use lattice_flow.Std.Update.{update}

pub record Timespec : Type 0 where
  pub tv_sec : ℕ
  pub tv_nsec : ℕ

pub record Itimerspec : Type 0 where
  pub it_interval : Timespec
  pub it_value : Timespec

-- `none` is the descriptor -1.
pub record TimerFileDescriptor : Type 0 where
  pub value : ℕ
  pub interval : ℕ
  pub timerfd : Option ℕ

pub record World : Type 0 where
  pub objects : ℕ → Option TimerFileDescriptor
  pub kernel : ℕ → Option Itimerspec

abbrev pub second : ℕ
second = 1000000000

unfoldable pub nanoseconds_to_timespec : ℕ → Timespec
nanoseconds_to_timespec d = record { tv_sec = d / second; tv_nsec = d % second }

abbrev pub setting : TimerFileDescriptor → Itimerspec
setting t = record {
  it_interval = nanoseconds_to_timespec t.interval;
  it_value = nanoseconds_to_timespec t.value;
}

-- The constructor, at an address that holds no object. `none`: an assertion fails.
unfoldable pub construct : ℕ → ℕ → ℕ → Option ℕ → World → Option World
construct a value interval created w =
    if nat_beq value 0 && nat_beq interval 0 then none else elim created [
      | none ↦ none
      | some fd ↦
          let t : TimerFileDescriptor = record {
            value = value;
            interval = interval;
            timerfd = some fd;
          } in
          some (record {
            objects = update a (some t) w.objects;
            kernel = update fd (some (setting t)) w.kernel;
          })
    ]

-- `none`: the descriptor is not open.
abbrev pub close : ℕ → World → Option World
close fd w = elim (w.kernel fd) [
  | none ↦ none
  | some s ↦ some (record w { kernel = update fd none w.kernel })
]

-- The destructor. `none` here and below: there is no object at the address.
unfoldable pub destroy : ℕ → World → Option World
destroy a w = elim (w.objects a) [
  | none ↦ none
  | some t ↦ elim t.timerfd [
    | none ↦ some (record w { objects = update a none w.objects })
    | some fd ↦ close fd (record w { objects = update a none w.objects })
  ]
]

-- The move constructor, at an address that holds no object.
unfoldable pub move_construct : ℕ → ℕ → World → Option World
move_construct a from w = elim (w.objects from) [
  | none ↦ none
  | some t ↦ some (record w {
    objects = update from (some (record t { timerfd = none })) (update a (some t) w.objects);
  })
]

unfoldable pub swap : ℕ → ℕ → World → Option World
swap lhs rhs w = elim (w.objects lhs) [
  | none ↦ none
  | some t ↦ elim (w.objects rhs) [
    | none ↦ none
    | some u ↦ some (record w { objects = update rhs (some t) (update lhs (some u) w.objects) })
  ]
]

-- `operator=` on an object that is moved from, with its parameter at the address `timer`.
unfoldable pub assign : ℕ → ℕ → ℕ → World → Option World
assign a from timer w = elim (move_construct timer from w) [
  | none ↦ none
  | some w1 ↦ elim (swap a timer w1) [ none ↦ none | some w2 ↦ destroy timer w2 ]
]
