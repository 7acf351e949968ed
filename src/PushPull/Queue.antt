-- ===== src/PushPull/Queue.antt =====
-- src/pushpull/queue.h.
use lattice_flow.Base.{
  ℕ, zero, suc, ◌≡◌, refl, subst, List, [], ◌∷◌, ◌++◌, none, some, map, length, arith,
}
use mathlib.Core.List.{append_assoc, append-nil}
use lattice_flow.PushPull.Element.{Pusher, Puller, push_all, pull_all}

-- The front of the queue is the head of the list.
pub record Queue {ℓ} (T : Type ℓ) : Type ℓ where
  pub xs : List T

module _ {ℓ} {T : Type ℓ} where
  unfoldable pub push : Pusher T (Queue T)
  push x q = record { xs = q.xs ++ x ∷ [] }

  unfoldable pub pull : Puller T (Queue T)
  pull q = elim q.xs [ [] ↦ (none, q) | x ∷ rest ↦ (some x, record { xs = rest }) ]

  push_all-push : (xs : List T) (q : Queue T) → push_all push xs q ≡ record { xs = q.xs ++ xs }
  unfolding push_all push
  push_all-push [] q = rw append-nil
  push_all-push (x ∷ xs) q = rw (push_all-push xs (record { xs = q.xs ++ x ∷ [] }), append_assoc)

  pull_all-pull :
      (n : ℕ) (ys xs : List T)
      → length ys ≡ n
      → pull_all pull n (record { xs = ys ++ xs }) ≡ (map some ys, record { xs = xs })
  unfolding pull_all pull
  pull_all-pull zero [] xs h = refl
  pull_all-pull zero (y ∷ ys) xs h = absurd (omega arith)
  pull_all-pull (suc n) [] xs h = absurd (omega arith)
  pull_all-pull (suc n) (y ∷ ys) xs h = rw (pull_all-pull n ys xs (omega arith))

  -- First in, first out: values that are pushed into a queue are pulled, in their order, after those
  -- that it held before; then the queue is empty, and a pull gives nothing and changes nothing.
  pub push-pull :
      (xs : List T) (q : Queue T)
      → (pull_all pull (length (q.xs ++ xs)) (push_all push xs q)
          ≡ (map some (q.xs ++ xs), record { xs = [] }))
        × (pull (record { xs = [] }) ≡ (none, record { xs = [] }))
  unfolding pull
  push-pull xs q = (
    rw (push_all-push xs q) (
        subst
          (λ (l : List T).
            pull_all pull (length (q.xs ++ xs)) (record { xs = l })
            ≡ (map some (q.xs ++ xs), record { xs = [] }))
          (append-nil (q.xs ++ xs)) (pull_all-pull (length (q.xs ++ xs)) (q.xs ++ xs) [] refl)),
    refl,
  )
