-- ===== src/PushPull/Join/Pull.antt =====
-- src/pushpull/join.h, the pull half.
use lattice_flow.Base.{Bool, not, Option, none, some, List, [], ◌∷◌, Eq, if◌then◌else◌, pop_back}
use lattice_flow.PushPull.Element.{Puller, write_down}
use lattice_flow.PushPull.Join.{Join, push_left, push_right}

-- The maps and `buf_`, which takes the place of the downstream element; `pull_left`; and what the two
-- upstream elements keep.
pub record PullJoin {ℓ κ μ} (Key : Type ℓ) (T : Type κ) (S : Type μ) : Type (ℓ ⊔ κ ⊔ μ) where
  pub join : Join Key T (List (T × T))
  pub pull_left : Bool
  pub upstream : S

module _ {ℓ κ μ} {Key : Type ℓ} {T : Type κ} {S : Type μ} ⦃e : Eq Key⦄
    (key_left key_right : T → Key) (left_upstream right_upstream : Puller T S) where
  -- The two places where `pull` returns the last pair of `buf_`.
  unfoldable pub give_back : PullJoin Key T S → Option (T × T) × PullJoin Key T S
  give_back p = elim (pop_back p.join.neighbour) [
    | none ↦ (none, p)
    | some (back, buf) ↦ (some back, record p { join = record p.join { neighbour = buf } })
  ]

  -- The rest of `pull`, with an empty buffer. An upstream element that gives nothing ends it.
  unfoldable pub refill : PullJoin Key T S → Option (T × T) × PullJoin Key T S
  refill p =
      let (x, s) = (if p.pull_left then left_upstream else right_upstream) p.upstream in
      elim x [
        | none ↦ (none, record p { upstream = s })
        | some v ↦ give_back (record {
          join =
              if p.pull_left
              then push_left key_left key_right write_down v p.join
              else push_right key_left key_right write_down v p.join;
          pull_left = not p.pull_left;
          upstream = s;
        })
      ]

  unfoldable pub pull : Puller (T × T) (PullJoin Key T S)
  pull p = elim p.join.neighbour [ [] ↦ refill p | x ∷ xs ↦ give_back p ]
