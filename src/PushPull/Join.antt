-- ===== src/PushPull/Join.antt =====
-- src/pushpull/join.h, the push half. The header keeps the right values in a map of vectors of the
-- left type, so the model has one type for both sides.
pub mod Matches
pub mod Pull
pub mod After
pub mod Given
use lattice_flow.Base.{
  ◌≡◌, refl, sym, ◌∙◌, ap, subst, Bool, true, false, Option, none, some, List, [], ◌∷◌, ◌++◌, map,
  arith, Eq, ◌==◌, if◌then◌else◌, filter_by, Bool-cases, inl, inr,
}
use lattice_flow.Std.Assoc.{Assoc, find, assign, find-assign}
use lattice_flow.PushPull.Element.{Pusher, push_all, write_down}

pub record Join {ℓ κ μ} (Key : Type ℓ) (T : Type κ) (S : Type μ) : Type (ℓ ⊔ κ ⊔ μ) where
  pub left_map : Assoc Key (List T)
  pub right_map : Assoc Key (List T)
  pub neighbour : S

module _ {ℓ κ} {Key : Type ℓ} {T : Type κ} ⦃e : Eq Key⦄ where
  -- The vector at a key; the map makes a missing entry with no values.
  unfoldable pub at_key : Key → Assoc Key (List T) → List T
  at_key k m = elim (find k m) [ none ↦ [] | some xs ↦ xs ]

  -- `m[k].push_back(x)`
  unfoldable pub push_back : Key → T → Assoc Key (List T) → Assoc Key (List T)
  push_back k x m = assign k (at_key k m ++ x ∷ []) m

  pub at_key-push_back :
      (k j : Key) (x : T) (m : Assoc Key (List T))
      → at_key j (push_back k x m) ≡ (if k == j then at_key k m ++ x ∷ [] else at_key j m)
  unfolding at_key push_back
  at_key-push_back k j x m = ground (arith, find-assign k j (at_key k m ++ x ∷ []) m)

module _ {ℓ κ μ} {Key : Type ℓ} {T : Type κ} {S : Type μ} ⦃e : Eq Key⦄
    (key_left key_right : T → Key) (downstream : Pusher (T × T) S) where
  -- The loop of `push_left` over the right values, and that of `push_right` over the left ones.
  unfoldable pub pair_left : T → List T → S → S
  pair_left l [] s = s
  pair_left l (r ∷ rs) s = pair_left l rs (downstream (l, r) s)

  unfoldable pub pair_right : List T → T → S → S
  pair_right [] r s = s
  pair_right (l ∷ ls) r s = pair_right ls r (downstream (l, r) s)

  unfoldable pub push_left : Pusher T (Join Key T S)
  push_left l j =
      let key = key_left l in
      record j {
        left_map = push_back key l j.left_map;
        neighbour = pair_left l (at_key key j.right_map) j.neighbour;
      }

  unfoldable pub push_right : Pusher T (Join Key T S)
  push_right r j =
      let key = key_right r in
      record j {
        right_map = push_back key r j.right_map;
        neighbour = pair_right (at_key key j.left_map) r j.neighbour;
      }

-- A push into one of the two inputs.
pub data Input {ℓ} (T : Type ℓ) : Type ℓ where
  left : T → Input T
  right : T → Input T

module _ {ℓ κ μ} {Key : Type ℓ} {T : Type κ} {S : Type μ} ⦃e : Eq Key⦄
    (key_left key_right : T → Key) (downstream : Pusher (T × T) S) where
  unfoldable pub push_input : Pusher (Input T) (Join Key T S)
  push_input (left l) j = push_left key_left key_right downstream l j
  push_input (right r) j = push_right key_left key_right downstream r j

pub record Inputs {ℓ} (T : Type ℓ) : Type ℓ where
  pub lefts : List T
  pub rights : List T

abbrev pub note_input {ℓ} : {T : Type ℓ} → Pusher (Input T) (Inputs T)
note_input (left l) i = record i { lefts = i.lefts ++ l ∷ [] }
note_input (right r) i = record i { rights = i.rights ++ r ∷ [] }
