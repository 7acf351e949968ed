-- ===== src/PushPull/Counter.antt =====
-- src/pushpull/counter.h. The count is an `int`: the model is exact below 2^31 calls.
use lattice_flow.Base.{ℕ, zero, suc, ◌+◌, ◌≡◌, List, [], ◌∷◌, length, arith}
use lattice_flow.PushPull.Element.{Pusher, Puller, push_all, pull_all}

-- The count, and what the element's neighbour keeps.
pub record Counter {ℓ} (S : Type ℓ) : Type ℓ where
  pub count : ℕ
  pub neighbour : S

module _ {ℓ κ} {T : Type ℓ} {S : Type κ} where
  unfoldable pub push : Pusher T S → Pusher T (Counter S)
  push downstream x c = record { count = c.count + 1; neighbour = downstream x c.neighbour }

  unfoldable pub pull : Puller T S → Puller T (Counter S)
  pull upstream c =
      let (x, s) = upstream c.neighbour in (x, record { count = c.count + 1; neighbour = s })

  -- A push counter passes every value on and counts them: after any pushes the downstream element has
  -- seen the same values in the same order, and the count has grown by their number.
  pub push_all-push_counter :
      (downstream : Pusher T S) (xs : List T) (c : Counter S)
      → push_all (push downstream) xs c
        ≡ record { count = c.count + length xs; neighbour = push_all downstream xs c.neighbour }
  unfolding push_all push
  push_all-push_counter downstream [] c = ground arith
  push_all-push_counter downstream (x ∷ xs) c = ground (
    arith,
    push_all-push_counter downstream xs
        (record { count = c.count + 1; neighbour = downstream x c.neighbour }),
  )

  -- A pull counter gives what its upstream element gives and counts the pulls, also those that give
  -- nothing.
  pub pull_all-pull_counter :
      (upstream : Puller T S) (n : ℕ) (c : Counter S)
      → pull_all (pull upstream) n c ≡ (
        (pull_all upstream n c.neighbour).0,
        record { count = c.count + n; neighbour = (pull_all upstream n c.neighbour).1 },
      )
  unfolding pull_all pull
  pull_all-pull_counter upstream zero c = ground arith
  pull_all-pull_counter upstream (suc n) c = ground (
    arith,
    pull_all-pull_counter upstream n
        (record { count = c.count + 1; neighbour = (upstream c.neighbour).1 }),
  )
