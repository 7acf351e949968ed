-- ===== src/Flow/Coroutine.antt =====
-- src/flow/coroutine_operator.h, with the coroutines of cross.h and naive_equijoin.h. A coroutine is at
-- the yield where it waits, or done; between two yields it runs on fuel, since a child may go on for
-- ever.
use lattice_flow.Base.{
  ◌≡◌, refl, sym, subst, Bool, true, false, Option, none, some, List, [], ◌∷◌, ◌++◌, arith, ℕ, zero,
  suc, ◌+◌, ◌<◌, ◌≤◌, length, map, filter_by, Bool-cases, inl, inr,
}
use lattice_flow.Flow.Operator.{Operator, Yields}
use lattice_flow.Flow.Product.{concat_map}

-- `left_` and `right_`, and what `coroutine_iterator_` points to: `none` at the end.
pub record Coroutine {ℓ κ μ} (A : Type ℓ) (B : Type κ) (V : Type μ) : Type (ℓ ⊔ κ ⊔ μ) where
  pub left : A
  pub right : B
  pub current : Option V

-- `keep` is the test under which a pair is yielded: that of `NaiveEquijoin`, or none in `Cross`.
module _ {ℓ κ μ} {A : Type ℓ} {B : Type κ} {T : Type μ} {U : Type μ} (left : Operator A T)
    (right : Operator B U) (keep : T → U → Bool) (fuel : ℕ) where
  -- `YieldNext` up to its next yield, from the head of the outer loop or, with a left tuple, from
  -- that of the inner loop.
  unfoldable pub seek : ℕ → Option T → A → B → Coroutine A B (T × U)
  seek zero l a b = record { left = a; right = b; current = none }
  seek (suc n) none a b =
      let (l, a') = left.next a in
      elim l [
        | none ↦ record { left = a'; right = b; current = none }
        | some x ↦ seek n (some x) a' b
      ]
  seek (suc n) (some x) a b =
      let (r, b') = right.next b in
      elim r [
        | none ↦ seek n none a (right.reset b')
        | some y ↦ elim (keep x y) [
          | true ↦ record { left = a; right = b'; current = some (x, y) }
          | false ↦ seek n (some x) a b'
        ]
      ]

  -- The tuple is copied before the coroutine goes on.
  unfoldable pub coroutine_next : Coroutine A B (T × U) → Option (T × U) × Coroutine A B (T × U)
  coroutine_next s = elim s.current [
    | none ↦ (none, s)
    | some (x, y) ↦ (some (x, y), seek fuel (some x) s.left s.right)
  ]

  -- `reset` of `Cross` or `NaiveEquijoin`, and of `CoroutineOperator` after it. A new coroutine runs up
  -- to its first yield.
  unfoldable pub coroutine_reset : Coroutine A B (T × U) → Coroutine A B (T × U)
  coroutine_reset s = seek fuel none (left.reset s.left) (right.reset s.right)

  abbrev pub coroutine_operator : Operator (Coroutine A B (T × U)) (T × U)
  coroutine_operator = record { next = coroutine_next; reset = coroutine_reset }

  -- The pairs of a left tuple.
  abbrev pub row : T → List U → List (T × U)
  row x ys = map (λ y. (x, y)) (filter_by (keep x) ys)

  module _ (ys : List U) where
    -- The steps to the end of the outer loop.
    abbrev pub work : List T → ℕ
    work [] = 0
    work (x ∷ xs) = length ys + 2 + work xs

    -- What is still to come at the head of the outer loop, and in the inner loop.
    abbrev rest : List T → List (T × U)
    rest xs = concat_map (λ x. row x ys) xs

    -- The coroutine waits where these tuples are to come.
    abbrev Waits : Coroutine A B (T × U) → List (T × U) → Type μ
    Waits s [] = s.current ≡ none
    Waits s ((x, y) ∷ zs) =
        (xs : List T) × (us : List U) × (s.current ≡ some (x, y))
        × Yields left s.left xs
        × Yields right s.right us
        × (zs ≡ row x us ++ rest xs)
        × (length us + 1 + work xs < fuel)

    module _ (resets : (c : B) → Yields right (right.reset c) ys) where
      Outer : ℕ → Type (ℓ ⊔ κ ⊔ μ)
      Outer n =
          (xs : List T) (a : A) (b : B)
          → Yields left a xs
          → Yields right b ys
          → work xs < n
          → Waits (seek n none a b) (rest xs)

      Inner : ℕ → Type (ℓ ⊔ κ ⊔ μ)
      Inner n =
          (x : T) (us : List U) (xs : List T) (a : A) (b : B)
          → Yields left a xs
          → Yields right b us
          → length us + 1 + work xs < n
          → Waits (seek n (some x) a b) (row x us ++ rest xs)

      outer : (n : ℕ) → Inner n → Outer (suc n)
      unfolding seek Inner Outer
      outer n inner [] a b h k w = rw (seek, h) refl
      outer n inner (x ∷ xs) a b (e, h) k w =
          rw (seek, e) (inner x ys xs (left.next a).1 b h k (omega arith))

      inner : (n : ℕ) → suc n ≤ fuel → Outer n → Inner n → Inner (suc n)
      unfolding seek Inner Outer
      inner n m out inn x [] xs a b h k w =
          rw (seek, k)
            (out xs a (right.reset (right.next b).1) h (resets (right.next b).1) (omega arith))
      inner n m out inn x (y ∷ us) xs a b h (e, k) w = elim (Bool-cases (keep x y)) [
        | inl kept ↦ rw (seek, e, kept) (xs, us, refl, h, k, refl, omega arith)
        | inr not_kept ↦ rw (seek, e, not_kept) (inn x us xs a (right.next b).1 h k (omega arith))
      ]

      both : (n : ℕ) → n ≤ fuel → Outer n × Inner n
      unfolding Inner Outer
      both zero m =
          (λ xs a b h k w. absurd (omega arith), λ x us xs a b h k w. absurd (omega arith))
      both (suc n) m = let (out, inn) = both n (omega arith) in (outer n inn, inner n m out inn)

      Waits-Yields :
          (s : Coroutine A B (T × U)) (zs : List (T × U))
          → Waits s zs
          → Yields coroutine_operator s zs
      unfolding coroutine_next Inner Outer
      Waits-Yields s [] h = rw (coroutine_next, h) refl
      Waits-Yields s ((x, y) ∷ zs) (xs, us, e, h, k, z, w) =
          rw (coroutine_next, e)
            (
              refl,
              Waits-Yields (seek fuel (some x) s.left s.right) zs (
                  subst (Waits (seek fuel (some x) s.left s.right)) (sym z)
                    ((both fuel (omega arith)).1 x us xs s.left s.right h k w)),
            )

      -- A coroutine that is reset gives, one for each call of `next`, the pairs of a left and a right
      -- tuple that are kept, in the order of the left ones and for each in that of the right ones, and
      -- then nothing: all pairs as a `Cross`, and those with equal columns as a `NaiveEquijoin`. The
      -- left child gives its tuples and the right child gives its own whenever it is reset, and there is more
      -- fuel than two steps and the number of right tuples for each left tuple.
      pub coroutine_operator-Yields :
          (s : Coroutine A B (T × U)) (xs : List T)
          → Yields left (left.reset s.left) xs
          → work xs < fuel
          → Yields coroutine_operator (coroutine_operator.reset s) (concat_map (λ x. row x ys) xs)
      unfolding coroutine_reset Outer Inner
      coroutine_operator-Yields s xs h w =
          Waits-Yields (seek fuel none (left.reset s.left) (right.reset s.right)) (rest xs) (
            (both fuel (omega arith)).0 xs (left.reset s.left) (right.reset s.right) h
              (resets s.right) w)
