-- ===== src/Flow/Product.antt =====
-- src/flow/cross.h and naive_equijoin.h. Both are coroutines: the model has the list of all that
-- `YieldNext` yields. Its two loops run on fuel, since a child may go on for ever.
use lattice_flow.Base.{
  ◌≡◌, List, [], ◌∷◌, ◌++◌, none, some, arith, ℕ, zero, suc, ◌<◌, length, if◌then◌else◌, Eq, ◌==◌,
  map, filter_by,
}
use lattice_flow.Flow.Operator.{Operator, Yields}

module _ {ℓ κ} {B : Type ℓ} {T : Type κ} {U : Type κ} (right : Operator B U) where
  -- The inner loop of `Cross`.
  unfoldable pub cross_row : ℕ → T → B → List (T × U) × B
  cross_row zero l b = ([], b)
  cross_row (suc n) l b =
      let (r, b') = right.next b in
      let (rest, b'') = cross_row n l b' in
      elim r [ none ↦ ([], b') | some y ↦ ((l, y) ∷ rest, b'') ]

  cross_row_lem :
      (n : ℕ) (l : T) (b : B) (ys : List U)
      → Yields right b ys
      → length ys < n
      → (cross_row n l b).0 ≡ map (λ r. (l, r)) ys
  unfolding cross_row
  cross_row_lem zero l b ys y h = absurd (omega arith)
  cross_row_lem (suc n) l b [] y h = ground arith
  cross_row_lem (suc n) l b (r ∷ ys) (e, y) h =
      ground (arith, cross_row_lem n l (right.next b).1 ys y)

  module _ {μ} {K : Type μ} ⦃e : Eq K⦄ (left_index : T → K) (right_index : U → K) where
    -- The inner loop of `NaiveEquijoin`.
    unfoldable pub equijoin_row : ℕ → T → B → List (T × U) × B
    equijoin_row zero l b = ([], b)
    equijoin_row (suc n) l b =
        let (r, b') = right.next b in
        let (rest, b'') = equijoin_row n l b' in
        elim r [
          | none ↦ ([], b')
          | some y ↦ if left_index l == right_index y then ((l, y) ∷ rest, b'') else (rest, b'')
        ]

    equijoin_row_lem :
        (n : ℕ) (l : T) (b : B) (ys : List U)
        → Yields right b ys
        → length ys < n
        → (equijoin_row n l b).0
          ≡ map (λ r. (l, r)) (filter_by (λ r. left_index l == right_index r) ys)
    unfolding equijoin_row
    equijoin_row_lem zero l b ys y h = absurd (omega arith)
    equijoin_row_lem (suc n) l b [] y h = ground arith
    equijoin_row_lem (suc n) l b (r ∷ ys) (q, y) h =
        ground (arith, equijoin_row_lem n l (right.next b).1 ys y)

-- The lists of all elements, one after another.
abbrev pub concat_map {ℓ κ} : {A : Type ℓ} {B : Type κ} → (A → List B) → List A → List B
concat_map f [] = []
concat_map f (x ∷ xs) = f x ++ concat_map f xs

-- The outer loop, the same in both: for each left tuple, the inner loop and then a reset.
module _ {ℓ κ μ ν} {A : Type ℓ} {B : Type κ} {T : Type μ} {V : Type ν} (left : Operator A T)
    (reset_right : B → B) (row : T → B → List V × B) where
  unfoldable pub rows : ℕ → A → B → List V × A × B
  rows zero a b = ([], a, b)
  rows (suc m) a b =
      let (l, a') = left.next a in
      elim l [
        | none ↦ ([], a', b)
        | some x ↦
            let (out, b') = row x b in
            let (rest, a'', b'') = rows m a' (reset_right b') in (out ++ rest, a'', b'')
      ]

  pub rows_lem :
      (f : T → List V) (m : ℕ) (a : A) (b : B) (xs : List T)
      → ((x : T) (c : B) → (row x (reset_right c)).0 ≡ f x)
      → Yields left a xs
      → length xs < m
      → (rows m a (reset_right b)).0 ≡ concat_map f xs
  unfolding rows
  rows_lem f zero a b xs r y h = absurd (omega arith)
  rows_lem f (suc m) a b [] r y h = ground arith
  rows_lem f (suc m) a b (x ∷ xs) r (e, y) h =
      ground (arith, r x b, rows_lem f m (left.next a).1 (row x (reset_right b)).1 xs r y)

module _ {ℓ κ μ} {A : Type ℓ} {B : Type κ} {T : Type μ} {U : Type μ} (left : Operator A T)
    (right : Operator B U) (m n : ℕ) where
  -- All that a `Cross` yields after `reset`.
  unfoldable pub cross : A → B → List (T × U)
  cross a b = (rows left right.reset (cross_row right n) m (left.reset a) (right.reset b)).0

  -- A cross product of two finite operators gives every pair of a left and a right tuple, in the
  -- order of the left ones and for each in that of the right ones. The children give the same
  -- tuples after every reset, and there is more fuel than tuples on either side.
  pub cross_lem :
      (a : A) (b : B) (xs : List T) (ys : List U)
      → Yields left (left.reset a) xs
      → ((c : B) → Yields right (right.reset c) ys)
      → length xs < m
      → length ys < n
      → cross a b ≡ concat_map (λ l. map (λ r. (l, r)) ys) xs
  unfolding cross
  cross_lem a b xs ys hx hy h k =
      rows_lem left right.reset (cross_row right n) (λ l. map (λ r. (l, r)) ys) m (left.reset a) b
        xs (λ x c. cross_row_lem right n x (right.reset c) ys (hy c) k) hx h

  module _ {ν} {K : Type ν} ⦃e : Eq K⦄ (left_index : T → K) (right_index : U → K) where
    -- All that a `NaiveEquijoin` yields after `reset`.
    unfoldable pub equijoin : A → B → List (T × U)
    equijoin a b =
        (rows left right.reset (equijoin_row right left_index right_index n) m (left.reset a)
          (right.reset b)).0

    -- An equijoin of two finite operators gives the pairs of a left and a right tuple whose columns
    -- are equal, in the order of the left ones and for each in that of the right ones. The children
    -- give the same tuples after every reset, and there is more fuel than tuples on either side.
    equijoin_lem :
        (a : A) (b : B) (xs : List T) (ys : List U)
        → Yields left (left.reset a) xs
        → ((c : B) → Yields right (right.reset c) ys)
        → length xs < m
        → length ys < n
        → equijoin a b
          ≡ concat_map
              (λ l. map (λ r. (l, r)) (filter_by (λ r. left_index l == right_index r) ys))
              xs
    unfolding equijoin
    equijoin_lem a b xs ys hx hy h k =
        rows_lem left right.reset (equijoin_row right left_index right_index n)
          (λ l. map (λ r. (l, r)) (filter_by (λ r. left_index l == right_index r) ys)) m
          (left.reset a) b xs
          (λ x c. equijoin_row_lem right left_index right_index n x (right.reset c) ys (hy c) k) hx
          h
