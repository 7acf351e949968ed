-- ===== src/Click/Driver.antt =====
-- src/click/event_handler.h, driver.h and driver.cc.
pub mod Turns
use lattice_flow.Base.{
  ◌≡◌, refl, sym, ◌∙◌, ap, Bool, true, false, Option, none, some, List, [], ◌∷◌, ◌++◌, map,
  if◌then◌else◌, Bool-cases, inl, inr,
}

pub record Driver {ℓ κ} (H : Type ℓ) (P : Type κ) : Type (ℓ ⊔ κ) where
  pub event_handlers : List H
  pub pollitems : List P

module _ {ℓ κ} {H : Type ℓ} {P : Type κ} where
  -- A handler and its poll item, before the others.
  unfoldable pub keep : H → P → Driver H P → Driver H P
  keep h p d = record { event_handlers = h ∷ d.event_handlers; pollitems = p ∷ d.pollitems }

-- `GetPollitem` and `IsOneOff` of each handler; and `Run`, which gives the state of all else after it
-- and the handlers that it registers, in order, or `none` where its behaviour is undefined.
module _ {ℓ κ μ} {H : Type ℓ} {P : Type κ} {W : Type μ} (get_pollitem : H → P)
    (is_one_off : H → Bool) (run : H → W → Option (W × List H)) where
  unfoldable pub register_event_handler : H → Driver H P → Driver H P
  register_event_handler h d = record {
    event_handlers = d.event_handlers ++ h ∷ [];
    pollitems = d.pollitems ++ get_pollitem h ∷ [];
  }

  unfoldable pub register_all : List H → Driver H P → Driver H P
  register_all [] d = d
  register_all (h ∷ hs) d = register_all hs (register_event_handler h d)

  -- The inner loop, over the local vectors: what is left of them, and the members and all else after
  -- it. The flags say which events `zmq::poll` has found; `none`: the assertion fails.
  unfoldable pub dispatch :
      List H → List P → List Bool → Driver H P → W → Option (Driver H P × Driver H P × W)
  dispatch hs [] flags d w = some (record { event_handlers = hs; pollitems = [] }, d, w)
  dispatch [] (p ∷ ps) flags d w = none
  dispatch (h ∷ hs) (p ∷ ps) [] d w = elim (dispatch hs ps [] d w) [
    | none ↦ none
    | some (kept, d', w') ↦ some (keep h p kept, d', w')
  ]
  dispatch (h ∷ hs) (p ∷ ps) (false ∷ flags) d w = elim (dispatch hs ps flags d w) [
    | none ↦ none
    | some (kept, d', w') ↦ some (keep h p kept, d', w')
  ]
  dispatch (h ∷ hs) (p ∷ ps) (true ∷ flags) d w = elim (run h w) [
    | none ↦ none
    | some (w1, registered) ↦ elim (dispatch hs ps flags (register_all registered d) w1) [
      | none ↦ none
      | some (kept, d', w') ↦ some ((if is_one_off h then kept else keep h p kept), d', w')
    ]
  ]

  -- A turn of the outer loop.
  unfoldable pub turn : List Bool → Driver H P → W → Option (Driver H P × W)
  turn flags d w =
      elim (dispatch d.event_handlers d.pollitems flags
        (record { event_handlers = []; pollitems = [] }) w) [
          | none ↦ none
          | some (kept, d', w') ↦ some (
            record {
              event_handlers = d'.event_handlers ++ kept.event_handlers;
              pollitems = d'.pollitems ++ kept.pollitems;
            },
            w',
          )
        ]

  pub dispatch_once :
      (h : H) (hs : List H) (p : P) (ps : List P) (flags : List Bool) (d kept d' : Driver H P)
      (w w1 w' : W)
      → run h w ≡ some (w1, [])
      → is_one_off h ≡ true
      → dispatch hs ps flags d w1 ≡ some (kept, d', w')
      → dispatch (h ∷ hs) (p ∷ ps) (true ∷ flags) d w ≡ some (kept, d', w')
  unfolding dispatch register_all
  dispatch_once h hs p ps flags d kept d' w w1 w' ran once rest =
      rw (dispatch, ran, rest, once) refl
