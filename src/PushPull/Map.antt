-- ===== src/PushPull/Map.antt =====
-- src/pushpull/map.h.
use lattice_flow.Base.{ℕ, zero, suc, ◌≡◌, refl, List, [], ◌∷◌, none, some, map, arith, map_option}
use lattice_flow.PushPull.Element.{Pusher, Puller, push_all, pull_all}

module _ {ℓ κ μ} {From : Type ℓ} {To : Type κ} {S : Type μ} (f : From → To) where
  unfoldable pub push : Pusher To S → Pusher From S
  push downstream x s = downstream (f x) s

  unfoldable pub pull : Puller From S → Puller To S
  pull upstream s =
      let (x, s') = upstream s in elim x [ some a ↦ (some (f a), s') | none ↦ (none, s') ]

  -- To push values into a map is to push their images downstream.
  pub push_all-push-map :
      (downstream : Pusher To S) (xs : List From) (s : S)
      → push_all (push downstream) xs s ≡ push_all downstream (map f xs) s
  unfolding push_all push
  push_all-push-map downstream [] s = refl
  push_all-push-map downstream (x ∷ xs) s = push_all-push-map downstream xs (downstream (f x) s)

  pull_lem :
      (upstream : Puller From S) (s : S)
      → pull upstream s ≡ (map_option f (upstream s).0, (upstream s).1)
  unfolding pull
  pull_lem upstream s = ground arith

  -- Pulls from a map give the images of what pulls from upstream give, and nothing where that gives
  -- nothing.
  pub pull_all-pull-map :
      (upstream : Puller From S) (n : ℕ) (s : S)
      → pull_all (pull upstream) n s
        ≡ (map (map_option f) (pull_all upstream n s).0, (pull_all upstream n s).1)
  unfolding pull_all
  pull_all-pull-map upstream zero s = refl
  pull_all-pull-map upstream (suc n) s =
      rw (pull_lem upstream s) (rw (pull_all-pull-map upstream n (upstream s).1))
