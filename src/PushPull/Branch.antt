-- ===== src/PushPull/Branch.antt =====
-- src/pushpull/tee.h.
use mathlib.Core.List.{append_assoc, append-nil}
use lattice_flow.Base.{ℕ, zero, suc, ◌+◌, ◌≡◌, List, [], ◌∷◌, ◌++◌}
use lattice_flow.PushPull.Element.{Pusher, push_all}

module _ {ℓ κ} {T : Type ℓ} {S : Type κ} where
  -- The loop over the downstream elements.
  unfoldable pub push : List (Pusher T S) → Pusher T S
  push [] x s = s
  push (d ∷ downstreams) x s = push downstreams x (d x s)

-- Downstream elements that write down what they are given, each under its own number, in one log.
abbrev pub tagged {ℓ} : {T : Type ℓ} → ℕ → ℕ → List (Pusher T (List (ℕ × T)))
tagged i zero = []
tagged i (suc n) = (λ x log. log ++ (i, x) ∷ []) ∷ tagged (i + 1) n

module _ {ℓ} {T : Type ℓ} where
  abbrev pub copies : ℕ → ℕ → T → List (ℕ × T)
  copies i zero x = []
  copies i (suc n) x = (i, x) ∷ copies (i + 1) n x

  abbrev pub all_copies : ℕ → List T → List (ℕ × T)
  all_copies n [] = []
  all_copies n (x ∷ xs) = copies 0 n x ++ all_copies n xs

  push-tagged :
      (i n : ℕ) (x : T) (log : List (ℕ × T)) → push (tagged i n) x log ≡ log ++ copies i n x
  unfolding push
  push-tagged i zero x log = rw append-nil
  push-tagged i (suc n) x log = rw (push-tagged (i + 1) n x (log ++ (i, x) ∷ []), append_assoc)

  -- A tee gives each value to every downstream element, once and in the order of the vector, before
  -- it takes the next value.
  pub push_all-push_tee :
      (n : ℕ) (xs : List T) (log : List (ℕ × T))
      → push_all (push (tagged 0 n)) xs log ≡ log ++ all_copies n xs
  unfolding push_all
  push_all-push_tee n [] log = rw append-nil
  push_all-push_tee n (x ∷ xs) log =
      rw (push-tagged 0 n x log, push_all-push_tee n xs (log ++ copies 0 n x), append_assoc)
