-- ===== src/Click/Driver/Turns.antt =====
-- The turns of the driver of src/click/driver.cc: which handlers run, which come and which stay.
use mathlib.Core.List.{map-append, append_assoc, append-nil}
use lattice_flow.Base.{
  ◌≡◌, refl, sym, ◌∙◌, ap, Bool, true, false, Option, none, some, List, [], ◌∷◌, ◌++◌, map,
  if◌then◌else◌, Bool-cases, inl, inr,
}
use lattice_flow.Click.Driver.{Driver, keep, register_event_handler, register_all, dispatch, turn}

module _ {ℓ κ μ} {H : Type ℓ} {P : Type κ} {W : Type μ} (get_pollitem : H → P)
    (is_one_off : H → Bool) (run : H → W → Option (W × List H)) where
  -- The handlers that a turn does not take away.
  abbrev pub survivors : List H → List Bool → List H
  survivors [] flags = []
  survivors (h ∷ hs) [] = h ∷ hs
  survivors (h ∷ hs) (false ∷ flags) = h ∷ survivors hs flags
  survivors (h ∷ hs) (true ∷ flags) =
      let rest = survivors hs flags in if is_one_off h then rest else h ∷ rest

  -- What the handlers whose event has come register, one after the other, and all else after them.
  abbrev pub registrations : List H → List Bool → W → List H
  registrations [] flags w = []
  registrations (h ∷ hs) [] w = []
  registrations (h ∷ hs) (false ∷ flags) w = registrations hs flags w
  registrations (h ∷ hs) (true ∷ flags) w = elim (run h w) [
    | none ↦ []
    | some (w1, registered) ↦ registered ++ registrations hs flags w1
  ]

  abbrev pub after_runs : List H → List Bool → W → W
  after_runs [] flags w = w
  after_runs (h ∷ hs) [] w = w
  after_runs (h ∷ hs) (false ∷ flags) w = after_runs hs flags w
  after_runs (h ∷ hs) (true ∷ flags) w = elim (run h w) [
    | none ↦ w
    | some (w1, registered) ↦ after_runs hs flags w1
  ]

  register_all-handlers :
      (hs : List H) (d : Driver H P)
      → (register_all get_pollitem is_one_off run hs d).event_handlers ≡ d.event_handlers ++ hs
  unfolding register_all register_event_handler
  register_all-handlers [] d = sym (append-nil d.event_handlers)
  register_all-handlers (h ∷ hs) d =
      register_all-handlers hs (register_event_handler get_pollitem is_one_off run h d)
      ∙ append_assoc d.event_handlers (h ∷ []) hs

  abbrev pub IsAligned : Driver H P → Type κ
  IsAligned d = d.pollitems ≡ map get_pollitem d.event_handlers

  register_all-IsAligned :
      (hs : List H) (d : Driver H P)
      → IsAligned d
      → IsAligned (register_all get_pollitem is_one_off run hs d)
  unfolding register_all register_event_handler
  register_all-IsAligned [] d a = a
  register_all-IsAligned (h ∷ hs) d a =
      register_all-IsAligned hs (register_event_handler get_pollitem is_one_off run h d) (
        ap (λ ps. ps ++ get_pollitem h ∷ []) a
        ∙ sym (map-append get_pollitem d.event_handlers (h ∷ [])))

  -- What a pass over handlers with their own poll items comes to.
  abbrev Dispatched : List H → List Bool → Driver H P → W → Type (ℓ ⊔ κ ⊔ μ)
  Dispatched hs flags d w =
      (kept : Driver H P) × (d' : Driver H P) × (w' : W) × (dispatch get_pollitem is_one_off run hs
          (map get_pollitem hs) flags d w
        ≡ some (kept, d', w'))
      × (kept.event_handlers ≡ survivors hs flags)
      × (d'.event_handlers ≡ d.event_handlers ++ registrations hs flags w)
      × (w' ≡ after_runs hs flags w)
      × IsAligned kept
      × IsAligned d'

  registrations_none : (hs : List H) (w : W) → registrations hs [] w ≡ []
  registrations_none [] w = refl
  registrations_none (h ∷ hs) w = refl

  after_runs_none : (hs : List H) (w : W) → after_runs hs [] w ≡ w
  after_runs_none [] w = refl
  after_runs_none (h ∷ hs) w = refl

  survivors_none : (hs : List H) → survivors hs [] ≡ hs
  survivors_none [] = refl
  survivors_none (h ∷ hs) = refl

  dispatch_total :
      ((h : H) (w : W) → (r : W × List H) × (run h w ≡ some r))
      → (hs : List H) (flags : List Bool) (d : Driver H P) (w : W) → IsAligned d
      → Dispatched hs flags d w
  unfolding dispatch keep
  dispatch_total runs [] flags d w a = (
    record { event_handlers = []; pollitems = [] },
    d,
    w,
    refl,
    refl,
    sym (append-nil d.event_handlers),
    refl,
    refl,
    a,
  )
  dispatch_total runs (h ∷ hs) [] d w a =
      let (kept, d', w', ran, left, new, last, aligned, members) =
        dispatch_total runs hs [] d w a in
      (
        keep h (get_pollitem h) kept,
        d',
        w',
        rw ran refl,
        ap (λ l. h ∷ l) (left ∙ survivors_none hs),
        new ∙ ap (λ l. d.event_handlers ++ l) (registrations_none hs w),
        last ∙ after_runs_none hs w,
        ap (λ l. get_pollitem h ∷ l) aligned,
        members,
      )
  dispatch_total runs (h ∷ hs) (false ∷ flags) d w a =
      let (kept, d', w', ran, left, new, last, aligned, members) =
        dispatch_total runs hs flags d w a in
      (
        keep h (get_pollitem h) kept,
        d',
        w',
        rw ran refl,
        ap (λ l. h ∷ l) left,
        new,
        last,
        ap (λ l. get_pollitem h ∷ l) aligned,
        members,
      )
  dispatch_total runs (h ∷ hs) (true ∷ flags) d w a =
      let ((w1, registered), e) = runs h w in
      let (kept, d', w', ran, left, new, last, aligned, members) =
        dispatch_total runs hs flags (register_all get_pollitem is_one_off run registered d) w1
          (register_all-IsAligned registered d a) in
      let all =
        new
        ∙ ap (λ l. l ++ registrations hs flags w1) (register_all-handlers registered d)
        ∙ append_assoc d.event_handlers registered (registrations hs flags w1) in
      elim (Bool-cases (is_one_off h)) [
        | inl once ↦ (
          kept,
          d',
          w',
          rw (e, ran, once) refl,
          rw once left,
          rw (registrations, e) all,
          rw (after_runs, e) last,
          aligned,
          members,
        )
        | inr again ↦ (
          keep h (get_pollitem h) kept,
          d',
          w',
          rw (e, ran, again) refl,
          rw again (ap (λ l. h ∷ l) left),
          rw (registrations, e) all,
          rw (after_runs, e) last,
          ap (λ l. get_pollitem h ∷ l) aligned,
          members,
        )
      ]

  -- The poll item of a handler always stands where the handler does. If no `Run` fails, then a turn
  -- finds it so and leaves it so, and no assertion fails. The handlers whose event has come run in their
  -- order, each on what the one before has left. After the turn, the handlers that they have registered
  -- come first, in the order of their registration, and then all that were there, less the one-off ones
  -- whose event has come.
  pub turn-survivors :
      ((h : H) (w : W) → (r : W × List H) × (run h w ≡ some r))
      → (flags : List Bool) (d : Driver H P) (w : W) → IsAligned d
      → (d' : Driver H P) × (turn get_pollitem is_one_off run flags d w
          ≡ some (d', after_runs d.event_handlers flags w))
        × (d'.event_handlers
            ≡ registrations d.event_handlers flags w ++ survivors d.event_handlers flags)
        × IsAligned d'
  unfolding turn
  turn-survivors runs flags d w a =
      let (kept, d', w', ran, left, new, last, aligned, members) =
        dispatch_total runs d.event_handlers flags (record { event_handlers = []; pollitems = [] })
          w refl in
      (
        record {
          event_handlers = d'.event_handlers ++ kept.event_handlers;
          pollitems = d'.pollitems ++ kept.pollitems;
        },
        rw (turn, a, ran)
            (ap
              (λ v. some (
                record {
                  event_handlers = d'.event_handlers ++ kept.event_handlers;
                  pollitems = d'.pollitems ++ kept.pollitems;
                },
                v,
              ))
              last),
        ap (λ l. d'.event_handlers ++ l) left ∙ ap (λ l. l ++ survivors d.event_handlers flags) new,
        rw (members, aligned) (sym (map-append get_pollitem d'.event_handlers kept.event_handlers)),
      )
