-- ===== src/PushPull/Element.antt =====
-- src/pushpull/pusher.h, puller.h, id.h, lambda.h, drop.h and register.h: the interfaces of the
-- elements, and the elements that keep nothing else.
use native.Mathlib.Nat.{zero-add, suc-add}
use lattice_flow.Base.{
  ℕ, zero, suc, ◌+◌, ◌≡◌, refl, List, [], ◌∷◌, ◌++◌, Option, none, some, replicate, last_or,
}

-- An element that can be pushed into, with `S` all that it and the elements below it keep.
abbrev pub Pusher {ℓ κ} : Type ℓ → Type κ → Type (ℓ ⊔ κ)
Pusher T S = T → S → S

-- An element that can be pulled from. `none` is an empty `boost::optional`.
abbrev pub Puller {ℓ κ} : Type ℓ → Type κ → Type (ℓ ⊔ κ)
Puller T S = S → Option T × S

module _ {ℓ κ} {T : Type ℓ} {S : Type κ} where
  -- One push after another.
  unfoldable pub push_all : Pusher T S → List T → S → S
  push_all push [] s = s
  push_all push (x ∷ xs) s = push_all push xs (push x s)

  -- So many pulls, and what each gave.
  unfoldable pub pull_all : Puller T S → ℕ → S → List (Option T) × S
  pull_all pull zero s = ([], s)
  pull_all pull (suc n) s =
      let (x, s') = pull s in let (xs, s'') = pull_all pull n s' in (x ∷ xs, s'')

  pub push_all-append :
      (push : Pusher T S) (xs ys : List T) (s : S)
      → push_all push (xs ++ ys) s ≡ push_all push ys (push_all push xs s)
  unfolding push_all
  push_all-append push [] ys s = refl
  push_all-append push (x ∷ xs) ys s = push_all-append push xs ys (push x s)

  pub pull_all-add :
      (pull : Puller T S) (m n : ℕ) (s : S)
      → pull_all pull (m + n) s ≡ (
        (pull_all pull m s).0 ++ (pull_all pull n (pull_all pull m s).1).0,
        (pull_all pull n (pull_all pull m s).1).1,
      )
  unfolding pull_all
  pull_all-add pull zero n s = rw (zero-add n)
  pull_all-add pull (suc m) n s = rw (suc-add m n) (rw (pull_all-add pull m n (pull s).1))

  pub pull_all-suc :
      (pull : Puller T S) (n : ℕ) (s : S)
      → pull_all pull (suc n) s
        ≡ ((pull s).0 ∷ (pull_all pull n (pull s).1).0, (pull_all pull n (pull s).1).1)
  unfolding pull_all
  pull_all-suc pull n s = refl

  pub pull_all-zero : (pull : Puller T S) (s : S) → pull_all pull zero s ≡ ([], s)
  unfolding pull_all
  pull_all-zero pull s = refl

  -- `Id`
  unfoldable pub id_push : Pusher T S → Pusher T S
  id_push downstream x s = downstream x s

  unfoldable pub id_pull : Puller T S → Puller T S
  id_pull upstream s = upstream s

  -- `Lambda`: the function that it was given, with what that function captures.
  unfoldable pub lambda_push : (T → S → S) → Pusher T S
  lambda_push f x s = f x s

  unfoldable pub lambda_pull : (S → Option T × S) → Puller T S
  lambda_pull f s = f s

  -- `Drop`
  unfoldable pub drop_push : Pusher T S
  drop_push x s = s

  unfoldable pub drop_pull : Puller T S
  drop_pull s = (none, s)

-- `Register<Push, T>` keeps the last value.
pub record Register {ℓ} (T : Type ℓ) : Type ℓ where
  pub x : T

module _ {ℓ} {T : Type ℓ} where
  unfoldable pub register_push : Pusher T (Register T)
  register_push x r = record { x = x }

  unfoldable pub register_get : Register T → T
  register_get r = r.x

  -- `Register<Pull, T>` gives the same value at each pull.
  unfoldable pub register_pull : Puller T (Register T)
  register_pull r = (some r.x, r)

-- A downstream element that writes down what it is given, as the tests use.
abbrev pub write_down {ℓ} : {T : Type ℓ} → Pusher T (List T)
write_down x log = log ++ x ∷ []

module _ {ℓ} {T : Type ℓ} where
  pull_all-register_pull :
      (n : ℕ) (r : Register T)
      → pull_all register_pull n r ≡ (replicate n (some (register_get r)), r)
  unfolding pull_all register_get register_pull
  pull_all-register_pull zero r = refl
  pull_all-register_pull (suc n) r = rw (pull_all-register_pull n r)

  -- After any pushes a push register holds the last value pushed, or its first value if there was no
  -- push; a pull register gives its one value at every pull, and stays as it is.
  pub register_lem :
      (xs : List T) (r : Register T) (n : ℕ)
      → (register_get (push_all register_push xs r) ≡ last_or (register_get r) xs)
        × (pull_all register_pull n r ≡ (replicate n (some (register_get r)), r))
  unfolding push_all register_push register_get
  register_lem [] r n = (refl, pull_all-register_pull n r)
  register_lem (x ∷ xs) r n = ((register_lem xs (record { x = x }) n).0, pull_all-register_pull n r)
