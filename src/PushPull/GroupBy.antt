-- ===== src/PushPull/GroupBy.antt =====
-- src/pushpull/group_by.h.
use mathlib.Core.List.{append_assoc, append-nil}
use lattice_flow.Base.{
  ◌≡◌, refl, none, some, List, [], ◌∷◌, ◌++◌, arith, Eq, ◌==◌, if◌then◌else◌, filter_by,
}
use lattice_flow.Std.Assoc.{Assoc, find, assign, erase, find-assign, find-erase}
use lattice_flow.PushPull.Element.{Pusher, push_all}

pub record GroupBy {ℓ κ μ} (Group : Type ℓ) (T : Type κ) (S : Type μ) : Type (ℓ ⊔ κ ⊔ μ) where
  pub groups : Assoc Group (List T)
  pub neighbour : S

module _ {ℓ κ} {Group : Type ℓ} {T : Type κ} ⦃e : Eq Group⦄ where
  -- The value of `groups_[g]`; the map makes a missing entry with no values.
  unfoldable pub members : Group → Assoc Group (List T) → List T
  members g groups = elim (find g groups) [ none ↦ [] | some xs ↦ xs ]

  pub members-assign :
      (g j : Group) (xs : List T) (groups : Assoc Group (List T))
      → members j (assign g xs groups) ≡ (if g == j then xs else members j groups)
  unfolding members
  members-assign g j xs groups = ground (arith, find-assign g j xs groups)

  pub members-erase :
      (g j : Group) (groups : Assoc Group (List T))
      → members j (erase g groups) ≡ (if g == j then [] else members j groups)
  unfolding members
  members-erase g j groups = ground (arith, find-erase g j groups)

module _ {ℓ κ μ} {Group : Type ℓ} {T : Type κ} {S : Type μ} ⦃e : Eq Group⦄ (group : T → Group)
    (downstream : Pusher (Group × List T) S) where
  -- `groups_[group].push_back(x)`
  unfoldable pub push_group : Pusher T (GroupBy Group T S)
  push_group x b = record b {
    groups = assign (group x) (members (group x) b.groups ++ x ∷ []) b.groups;
  }

  -- Erases the group, then pushes what it held.
  unfoldable pub end_group : Pusher Group (GroupBy Group T S)
  end_group g b = record {
    groups = erase g b.groups;
    neighbour = downstream (g, members g b.groups) b.neighbour;
  }

  pub members-push_all :
      (xs : List T) (g : Group) (b : GroupBy Group T S)
      → (members g (push_all push_group xs b).groups
          ≡ members g b.groups ++ filter_by (λ x. group x == g) xs)
        × ((push_all push_group xs b).neighbour ≡ b.neighbour)
  unfolding push_all push_group
  members-push_all [] g b = (rw append-nil, refl)
  members-push_all (x ∷ xs) g b = ground (
    arith,
    members-push_all xs g (push_group x b),
    members-assign (group x) g (members (group x) b.groups ++ x ∷ []) b.groups,
    append_assoc (members g b.groups) (x ∷ []) (filter_by (λ y. group y == g) xs),
    e.beq_iff (group x) g,
  )

  -- A group by passes on a group when it ends: after any pushes, the end of a group pushes downstream
  -- that group, with what was held for it before the pushes and then those of the values that belong
  -- to it, in their order, and nothing else. The ended group is then empty and any other group keeps
  -- its values.
  pub push_group-end_group :
      (xs : List T) (g j : Group) (b : GroupBy Group T S)
      → ((end_group g (push_all push_group xs b)).neighbour
          ≡ downstream (g, members g b.groups ++ filter_by (λ x. group x == g) xs) b.neighbour)
        × (members j (end_group g (push_all push_group xs b)).groups
            ≡ (if g == j then [] else members j b.groups ++ filter_by (λ x. group x == j) xs))
  unfolding end_group
  push_group-end_group xs g j b = ground (
    arith,
    members-push_all xs g b,
    members-push_all xs j b,
    members-erase g j (push_all push_group xs b).groups,
  )
