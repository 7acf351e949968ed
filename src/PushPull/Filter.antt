-- ===== src/PushPull/Filter.antt =====
-- src/pushpull/filter.h and if.h.
use lattice_flow.Base.{
  ℕ, zero, suc, ◌≡◌, refl, Bool, not, List, [], ◌∷◌, none, some, map, arith, filter_by,
  if◌then◌else◌, filter_option,
}
use lattice_flow.PushPull.Element.{Pusher, Puller, push_all, pull_all}

module _ {ℓ κ} {T : Type ℓ} {S : Type κ} (predicate : T → Bool) where
  unfoldable pub push : Pusher T S → Pusher T S
  push downstream x s = if predicate x then downstream x s else s

  unfoldable pub pull : Puller T S → Puller T S
  pull upstream s =
      let (x, s') = upstream s in
      elim x [ some a ↦ if predicate a then (some a, s') else (none, s') | none ↦ (none, s') ]

  -- `If`
  unfoldable pub if_push : Pusher T S → Pusher T S → Pusher T S
  if_push true_branch false_branch x s = if predicate x then true_branch x s else false_branch x s

  -- To push values into a filter is to push those that pass the predicate downstream.
  pub push_all-push_filter :
      (downstream : Pusher T S) (xs : List T) (s : S)
      → push_all (push downstream) xs s ≡ push_all downstream (filter_by predicate xs) s
  unfolding push_all push
  push_all-push_filter downstream [] s = refl
  push_all-push_filter downstream (x ∷ xs) s = ground (
    arith,
    push_all-push_filter downstream xs (downstream x s),
    push_all-push_filter downstream xs s,
  )

  pull_lem :
      (upstream : Puller T S) (s : S)
      → pull upstream s ≡ (filter_option predicate (upstream s).0, (upstream s).1)
  unfolding pull
  pull_lem upstream s = ground arith

  -- Each pull from a filter pulls once from upstream, and gives that value if it passes the predicate
  -- and nothing otherwise.
  pub pull_all-pull_filter :
      (upstream : Puller T S) (n : ℕ) (s : S)
      → pull_all (pull upstream) n s
        ≡ (map (filter_option predicate) (pull_all upstream n s).0, (pull_all upstream n s).1)
  unfolding pull_all
  pull_all-pull_filter upstream zero s = refl
  pull_all-pull_filter upstream (suc n) s =
      rw (pull_lem upstream s) (rw (pull_all-pull_filter upstream n (upstream s).1))

-- Two elements that share nothing, side by side.
module _ {ℓ κ μ} {T : Type ℓ} {A : Type κ} {B : Type μ} where
  abbrev pub on_left : Pusher T A → Pusher T (A × B)
  on_left d x (a, b) = (d x a, b)

  abbrev pub on_right : Pusher T B → Pusher T (A × B)
  on_right d x (a, b) = (a, d x b)

  -- With two downstream elements that share nothing, the true branch of an `If` sees the values that
  -- pass the predicate and the false branch the others, each in their order.
  pub push_all-if_push :
      (predicate : T → Bool) (t : Pusher T A) (f : Pusher T B) (xs : List T) (a : A) (b : B)
      → push_all (if_push predicate (on_left t) (on_right f)) xs (a, b) ≡ (
        push_all t (filter_by predicate xs) a,
        push_all f (filter_by (λ x. not (predicate x)) xs) b,
      )
  unfolding push_all if_push
  push_all-if_push predicate t f [] a b = refl
  push_all-if_push predicate t f (x ∷ xs) a b = ground (
    arith,
    push_all-if_push predicate t f xs (t x a) b,
    push_all-if_push predicate t f xs a (f x b),
  )
