-- ===== src/Base/Lists.antt =====
-- Lists measured and indexed by native numbers, under the library's names, and `Bool` predicates.
use Prim.Native.Nat.{ℕ, zero, suc, ◌+◌, ◌≤◌}
use mathlib.Core.Path.{◌≡◌, refl, ap}
use mathlib.Core.Bool.{Bool}
use mathlib.Core.List.{List, [], ◌∷◌, ◌++◌}
use mathlib.Core.Option.{Option, none, some}
use native.Mathlib.Omega.{arith}
use mathlib.Core.Logic.{inl, inr}
use lattice_flow.Base.Tests.{if◌then◌else◌, Option-cases}

module _ {ℓ} {A : Type ℓ} where
  abbrev pub length : List A → ℕ
  length [] = 0
  length (x ∷ xs) = suc (length xs)

  abbrev pub get_elem? : List A → ℕ → Option A
  get_elem? [] i = none
  get_elem? (x ∷ xs) zero = some x
  get_elem? (x ∷ xs) (suc i) = get_elem? xs i

  abbrev pub replicate : ℕ → A → List A
  replicate zero a = []
  replicate (suc n) a = a ∷ replicate n a

  abbrev pub take : ℕ → List A → List A
  take zero xs = []
  take (suc n) [] = []
  take (suc n) (x ∷ xs) = x ∷ take n xs

  abbrev pub drop : ℕ → List A → List A
  drop zero xs = xs
  drop (suc n) [] = []
  drop (suc n) (x ∷ xs) = drop n xs

  -- The elements that pass a test, in order.
  abbrev pub filter_by : (A → Bool) → List A → List A
  filter_by p [] = []
  filter_by p (x ∷ xs) = let rest = filter_by p xs in if p x then x ∷ rest else rest

  pub length-append : (xs ys : List A) → length (xs ++ ys) ≡ length xs + length ys
  length-append [] ys = omega arith
  length-append (x ∷ xs) ys = omega (arith, length-append xs ys)

  pub length-replicate : (n : ℕ) (a : A) → length (replicate n a) ≡ n
  length-replicate zero a = refl
  length-replicate (suc n) a = ap suc (length-replicate n a)

  pub length-filter_by-le : (p : A → Bool) (xs : List A) → length (filter_by p xs) ≤ length xs
  length-filter_by-le p [] = omega arith
  length-filter_by-le p (x ∷ xs) = ground (arith, length-filter_by-le p xs)

-- The numbers i, i + 1, ... of a counted loop.
abbrev pub range_from : ℕ → ℕ → List ℕ
range_from i zero = []
range_from i (suc n) = i ∷ range_from (i + 1) n

module _ {ℓ} {A : Type ℓ} where
  abbrev pub map_option {κ} : {B : Type κ} → (A → B) → Option A → Option B
  map_option f none = none
  map_option f (some a) = some (f a)

  abbrev pub filter_option : (A → Bool) → Option A → Option A
  filter_option p none = none
  filter_option p (some a) = if p a then some a else none

  abbrev pub repeat_each : ℕ → List A → List A
  repeat_each n [] = []
  repeat_each n (x ∷ xs) = replicate n x ++ repeat_each n xs

  abbrev pub last_or : A → List A → A
  last_or d [] = d
  last_or d (x ∷ xs) = last_or x xs

module _ {ℓ} {A : Type ℓ} where
  -- `back` and `pop_back` of a vector, which must not be empty.
  unfoldable pub pop_back : List A → Option (A × List A)
  pop_back [] = none
  pop_back (x ∷ xs) =
      let rest = pop_back xs in elim rest [ none ↦ some (x, []) | some (y, ys) ↦ some (y, x ∷ ys) ]

  pop_back-none : (xs : List A) → pop_back xs ≡ none → xs ≡ []
  unfolding pop_back
  pop_back-none [] h = refl
  pop_back-none (x ∷ xs) h = ground arith

  pub pop_back_lem : (xs ys : List A) (y : A) → pop_back xs ≡ some (y, ys) → xs ≡ ys ++ y ∷ []
  unfolding pop_back
  pop_back_lem [] ys y h = ground arith
  pop_back_lem (x ∷ xs) ys y h = elim (Option-cases (pop_back xs)) [
    | inl e ↦ ground (arith, pop_back-none xs)
    | inr ((z, zs), e) ↦ ground (arith, pop_back_lem xs zs z e)
  ]

  pub pop_back-snoc : (xs : List A) (y : A) → pop_back (xs ++ y ∷ []) ≡ some (y, xs)
  unfolding pop_back
  pop_back-snoc [] y = refl
  pop_back-snoc (x ∷ xs) y = rw (pop_back-snoc xs y)
