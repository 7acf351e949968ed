-- ===== src/Click/Timer/Delivery.antt =====
-- Every value that is pushed into a timer comes out once.
use mathlib.Core.List.{append_assoc, append-nil}
use mathlib.Core.List.Perm
use mathlib.Core.List.{Perm}
use lattice_flow.Base.{ℕ, ◌≡◌, refl, sym, ◌∙◌, ap, subst, some, List, [], ◌∷◌, ◌++◌, nat_eq}
use lattice_flow.Std.Assoc.{keys}
use lattice_flow.Click.Driver.{Driver}
use lattice_flow.Click.Timer.{Timer, Event, pushes, turns, happen_all}
use lattice_flow.Click.Timer.Fired.{values, fired, spared, values-append, fired-spared}
use lattice_flow.Click.Timer.Tracking.{
  holding, watching, Tracks, push_lem, push-Tracks, turn-Tracks,
}

module _ {ℓ} {T : Type ℓ} where
  abbrev pub all_pushed : List (Event T) → List T
  all_pushed [] = []
  all_pushed (pushes x ∷ events) = x ∷ all_pushed events
  all_pushed (turns flags ∷ events) = all_pushed events

  module _ {κ} {P : Type κ} (get_pollitem : ℕ → P) where
    abbrev Delivered : List (Event T) → Driver ℕ P → Timer T → Type (ℓ ⊔ κ)
    Delivered events d t =
        (d' : Driver ℕ P) × (t' : Timer T) × (happen_all get_pollitem events t d ≡ some (d', t'))
        × Tracks get_pollitem d' t'
        × Perm ((t.pushed ++ values t.timer_event_handlers) ++ all_pushed events)
            (t'.pushed ++ values t'.timer_event_handlers)

    happen_all_lem :
        (events : List (Event T)) (d : Driver ℕ P) (t : Timer T)
        → Tracks get_pollitem d t
        → Delivered events d t
    unfolding happen_all
    happen_all_lem [] d t s = (
      d,
      t,
      refl,
      s,
      subst (λ l. Perm l (t.pushed ++ values t.timer_event_handlers))
          (sym (append-nil (t.pushed ++ values t.timer_event_handlers))) Perm.rfl,
    )
    happen_all_lem (pushes x ∷ events) d t s =
        let m = t.timer_event_handlers in
        let (d', t', ran, tracks, perm) =
          happen_all_lem events _ _ (push-Tracks get_pollitem x d t s) in
        (
          d',
          t',
          rw (happen_all, push_lem get_pollitem x d t s) ran,
          tracks,
          subst (λ l. Perm l (t'.pushed ++ values t'.timer_event_handlers))
              (ap (λ l. (t.pushed ++ l) ++ all_pushed events)
                  (values-append m ((t.timer_id, x) ∷ []))
                ∙ ap (λ l. l ++ all_pushed events) (sym (append_assoc t.pushed (values m) (x ∷ [])))
                ∙ append_assoc (t.pushed ++ values m) (x ∷ []) (all_pushed events))
              perm,
        )
    happen_all_lem (turns flags ∷ events) d t s =
        let m = t.timer_event_handlers in
        let (d1, t1, turned, s1, out, left) = turn-Tracks get_pollitem flags d t s in
        let (d', t', ran, tracks, perm) = happen_all_lem events d1 t1 s1 in
        (
          d',
          t',
          rw (happen_all, turned) ran,
          tracks,
          Perm.trans
              (Perm.append_right (all_pushed events) (
                rw (out, left, append_assoc t.pushed (fired m flags) (values (spared m flags)))
                  (Perm.append_left t.pushed (fired-spared m flags))))
              perm,
        )

    -- In whatever order values are pushed into a new timer and its driver takes turns, with whatever
    -- timers expired, every handler that runs is one that the map still holds; the driver then waits
    -- for just the handlers in the map; and the values pushed are those passed downstream and those
    -- in the map, each as often as it was pushed: none is lost and none comes twice.
    pub happen_all-pushed :
        (events : List (Event T))
        → (d : Driver ℕ P) × (t : Timer T) × (happen_all get_pollitem events
              (holding 0 [] [])
              (record { event_handlers = []; pollitems = [] })
            ≡ some (d, t))
          × (d.event_handlers ≡ keys t.timer_event_handlers)
          × Perm (all_pushed events) (t.pushed ++ values t.timer_event_handlers)
    happen_all-pushed events =
        let empty : Tracks get_pollitem (watching {T = T} get_pollitem []) (holding 0 [] []) =
          record { handlers = refl; items = refl; distinct = tt; below = tt } in
        let (d, t, ran, tracks, perm) =
          happen_all_lem events (watching {T = T} get_pollitem []) (holding 0 [] []) empty in
        (d, t, ran, tracks.handlers, perm)
