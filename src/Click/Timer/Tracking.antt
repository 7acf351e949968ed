-- ===== src/Click/Timer/Tracking.antt =====
-- A driver that has the handlers of a timer and no other, from turn to turn.
use mathlib.Core.List.{append_assoc, append-nil, map-append}
use lattice_flow.Base.{
  ℕ, ◌+◌, ◌≡◌, refl, sym, ◌∙◌, ap, subst, Bool, true, false, some, List, [], ◌∷◌, ◌++◌, map, nat_eq,
}
use lattice_flow.Std.Assoc.{Assoc, keys}
use lattice_flow.Std.UnorderedMap.{IsDistinct, add-IsDistinct}
use lattice_flow.Std.Entries.{find_middle, erase_middle, rest-IsDistinct, add_lem, keys-append}
use lattice_flow.Click.Driver.{
  Driver, keep, register_event_handler, dispatch_once, register_all, dispatch, turn,
}
use lattice_flow.Click.Timer.{Timer, run, is_one_off, push}
use lattice_flow.Click.Timer.Fired.{
  fired, spared, Below, Below-absent, Below-snoc, Below-spared, fired_none, spared_none,
  spared-IsDistinct,
}

module _ {ℓ} {T : Type ℓ} where
  abbrev pub holding : ℕ → Assoc ℕ T → List T → Timer T
  holding n m out = record { timer_id = n; timer_event_handlers = m; pushed = out }

  module _ {κ} {P : Type κ} (get_pollitem : ℕ → P) where
    -- The driver when the map holds these entries.
    abbrev pub watching : Assoc ℕ T → Driver ℕ P
    watching m = record { event_handlers = keys m; pollitems = map get_pollitem (keys m) }

    -- What a pass over the timers behind `before` in the map comes to.
    abbrev Passed : ℕ → Assoc ℕ T → Assoc ℕ T → List Bool → List T → Driver ℕ P → Type (ℓ ⊔ κ)
    Passed n before m flags out d =
        dispatch get_pollitem is_one_off run (keys m) (map get_pollitem (keys m)) flags d
          (holding n (before ++ m) out)
        ≡ some (
          watching (spared m flags),
          d,
          holding n (before ++ spared m flags) (out ++ fired m flags),
        )

    behind_entry :
        (n : ℕ) (before : Assoc ℕ T) (e : ℕ × T) (m : Assoc ℕ T) (flags : List Bool) (out : List T)
        (d : Driver ℕ P)
        → Passed n (before ++ e ∷ []) m flags out d
        → dispatch get_pollitem is_one_off run
            (keys m)
            (map get_pollitem (keys m))
            flags
            d
            (holding n (before ++ e ∷ m) out)
          ≡ some (
            watching (spared m flags),
            d,
            holding n (before ++ e ∷ spared m flags) (out ++ fired m flags),
          )
    behind_entry n before e m flags out d passed =
        rw (← append_assoc before (e ∷ []) m, ← append_assoc before (e ∷ []) (spared m flags))
          passed

    run_middle :
        (n id : ℕ) (x : T) (before m : Assoc ℕ T) (out : List T)
        → IsDistinct (before ++ (id, x) ∷ m)
        → run id (holding n (before ++ (id, x) ∷ m) out)
          ≡ some (holding n (before ++ m) (out ++ x ∷ []), [])
    unfolding run
    run_middle n id x before m out h =
        rw (run, find_middle id x before m h, erase_middle id x before m h) refl

    dispatch_timers :
        (n : ℕ) (before m : Assoc ℕ T) (flags : List Bool) (out : List T) (d : Driver ℕ P)
        → IsDistinct (before ++ m)
        → Passed n before m flags out d
    unfolding dispatch keep register_all
    dispatch_timers n before [] flags out d h = rw (append-nil out) refl
    dispatch_timers n before (e ∷ m) [] out d h =
        let behind = subst IsDistinct (sym (append_assoc before (e ∷ []) m)) h in
        rw
          (
            behind_entry n before e m [] out d
                (dispatch_timers n (before ++ e ∷ []) m [] out d behind),
            spared_none m,
            fired_none m,
          )
          refl
    dispatch_timers n before (e ∷ m) (false ∷ flags) out d h =
        let behind = subst IsDistinct (sym (append_assoc before (e ∷ []) m)) h in
        rw
          (behind_entry n before e m flags out d
            (dispatch_timers n (before ++ e ∷ []) m flags out d behind))
          refl
    dispatch_timers n before ((id, x) ∷ m) (true ∷ flags) out d h =
        dispatch_once get_pollitem is_one_off run id (keys m) (get_pollitem id)
          (map get_pollitem (keys m)) flags d _ _ _ _ _ (run_middle n id x before m out h) refl
          (rw (← append_assoc out (x ∷ []) (fired m flags))
            (dispatch_timers n before m flags (out ++ x ∷ []) d (rest-IsDistinct id x before m h)))

    -- The driver has the handlers that the map holds, and no other.
    pub record Tracks (d : Driver ℕ P) (t : Timer T) : Type (ℓ ⊔ κ) where
      pub handlers : d.event_handlers ≡ keys t.timer_event_handlers
      pub items : d.pollitems ≡ map get_pollitem (keys t.timer_event_handlers)
      pub distinct : IsDistinct t.timer_event_handlers
      pub below : Below t.timer_id t.timer_event_handlers

    pub push_lem :
        (x : T) (d : Driver ℕ P) (t : Timer T)
        → Tracks d t
        → push get_pollitem x t d ≡ (
          holding (t.timer_id + 1) (t.timer_event_handlers ++ (t.timer_id, x) ∷ []) t.pushed,
          register_event_handler get_pollitem is_one_off (run {T = T}) t.timer_id d,
        )
    unfolding push
    push_lem x d t s =
        rw
          (
            push,
            Below-absent t.timer_id t.timer_event_handlers s.below,
            add_lem t.timer_id x t.timer_event_handlers,
          )
          refl

    pub push-Tracks :
        (x : T) (d : Driver ℕ P) (t : Timer T)
        → Tracks d t
        → Tracks
            (register_event_handler get_pollitem is_one_off (run {T = T}) t.timer_id d)
            (holding (t.timer_id + 1) (t.timer_event_handlers ++ (t.timer_id, x) ∷ []) t.pushed)
    unfolding register_event_handler
    push-Tracks x d t s =
        let m = t.timer_event_handlers in
        let n = t.timer_id in
        let handlers = ap (λ l. l ++ n ∷ []) s.handlers ∙ sym (keys-append m ((n, x) ∷ [])) in
        record {
          handlers = handlers;
          items =
              ap (λ l. l ++ get_pollitem n ∷ []) s.items
              ∙ sym (map-append get_pollitem (keys m) (n ∷ []))
              ∙ ap (map get_pollitem) (sym (keys-append m ((n, x) ∷ [])));
          distinct =
              subst IsDistinct (add_lem n x m)
                (add-IsDistinct n x m (Below-absent n m s.below) s.distinct);
          below = Below-snoc n x m s.below;
        }

    pub turn-Tracks :
        (flags : List Bool) (d : Driver ℕ P) (t : Timer T)
        → Tracks d t
        → (d' : Driver ℕ P) × (t' : Timer T) × (turn get_pollitem is_one_off run flags d t
            ≡ some (d', t'))
          × Tracks d' t'
          × (t'.pushed ≡ t.pushed ++ fired t.timer_event_handlers flags)
          × (t'.timer_event_handlers ≡ spared t.timer_event_handlers flags)
    unfolding turn
    turn-Tracks flags d t s =
        let m = t.timer_event_handlers in
        (
          watching (spared m flags),
          holding t.timer_id (spared m flags) (t.pushed ++ fired m flags),
          rw
              (
                turn,
                s.handlers,
                s.items,
                dispatch_timers t.timer_id [] m flags t.pushed
                    (record { event_handlers = []; pollitems = [] }) s.distinct,
              )
              refl,
          record {
            handlers = refl;
            items = refl;
            distinct = spared-IsDistinct [] m flags s.distinct;
            below = Below-spared t.timer_id m flags s.below;
          },
          refl,
          refl,
        )
