-- ===== src/Click/GroupBy.antt =====
-- src/click/group_by.h.
use mathlib.Core.List.{append_assoc, append-nil}
use lattice_flow.Base.{◌≡◌, refl, none, some, List, [], ◌∷◌, ◌++◌, arith, Eq, ◌==◌, if◌then◌else◌}
use lattice_flow.Std.Assoc.{find, assign, erase}
use lattice_flow.PushPull.Element.{Pusher, push_all}
use lattice_flow.PushPull.GroupBy.{GroupBy, members, members-assign, members-erase}

module _ {ℓ κ μ} {Group : Type ℓ} {From : Type κ} {S : Type μ} ⦃e : Eq Group⦄
    (downstream : Pusher (Group × List From) S) where
  unfoldable pub push_call : Pusher (Group × From) (GroupBy Group From S)
  push_call (g, x) b = record b { groups = assign g (members g b.groups ++ x ∷ []) b.groups }

  unfoldable pub end_call : Pusher Group (GroupBy Group From S)
  end_call g b = elim (find g b.groups) [
    | none ↦ record b { neighbour = downstream (g, []) b.neighbour }
    | some xs ↦ record { groups = erase g b.groups; neighbour = downstream (g, xs) b.neighbour }
  ]

  -- The values of a group, in order.
  abbrev pub values_of : Group → List (Group × From) → List From
  values_of g [] = []
  values_of g ((k, x) ∷ ps) = let rest = values_of g ps in if k == g then x ∷ rest else rest

  members-push_call :
      (ps : List (Group × From)) (g : Group) (b : GroupBy Group From S)
      → (members g (push_all push_call ps b).groups ≡ members g b.groups ++ values_of g ps)
        × ((push_all push_call ps b).neighbour ≡ b.neighbour)
  unfolding push_all push_call
  members-push_call [] g b = (rw append-nil, refl)
  members-push_call ((k, x) ∷ ps) g b = ground (
    arith,
    members-push_call ps g (push_call (k, x) b),
    members-assign k g (members k b.groups ++ x ∷ []) b.groups,
    append_assoc (members g b.groups) (x ∷ []) (values_of g ps),
    e.beq_iff k g,
  )

  end_call_lem :
      (g j : Group) (b : GroupBy Group From S)
      → ((end_call g b).neighbour ≡ downstream (g, members g b.groups) b.neighbour)
        × (members j (end_call g b).groups ≡ (if g == j then [] else members j b.groups))
  unfolding end_call members
  end_call_lem g j b = ground (arith, members-erase g j b.groups, e.beq_iff g j)

  -- After any pushes of values with their groups, the end of a group pushes downstream that group
  -- with what was held for it before and then its values, in their order, also when there is none.
  -- The ended group is then empty and any other group keeps its values.
  pub push_call-end_call :
      (ps : List (Group × From)) (g j : Group) (b : GroupBy Group From S)
      → ((end_call g (push_all push_call ps b)).neighbour
          ≡ downstream (g, members g b.groups ++ values_of g ps) b.neighbour)
        × (members j (end_call g (push_all push_call ps b)).groups
            ≡ (if g == j then [] else members j b.groups ++ values_of j ps))
  push_call-end_call ps g j b = ground (
    arith,
    end_call_lem g j (push_all push_call ps b),
    members-push_call ps g b,
    members-push_call ps j b,
  )
