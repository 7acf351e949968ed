-- ===== src/Flow/Operator.antt =====
-- src/flow/operator.h, iterator.h, map.h and empty.h.
use lattice_flow.Base.{◌≡◌, refl, sym, subst, List, [], ◌∷◌, Option, none, some, map, arith}

-- What `next` and `reset` do to the state of an operator.
pub record Operator {ℓ κ} (S : Type ℓ) (T : Type κ) : Type (ℓ ⊔ κ) where
  pub next : S → Option T × S
  pub reset : S → S

module _ {ℓ κ} {S : Type ℓ} {T : Type κ} where
  -- Calls of `next` give these tuples, in order, and then nothing.
  abbrev pub Yields : Operator S T → S → List T → Type κ
  Yields op s [] = (op.next s).0 ≡ none
  Yields op s (x ∷ xs) = ((op.next s).0 ≡ some x) × Yields op (op.next s).1 xs

module _ {ℓ} {T : Type ℓ} where
  -- `Iterator` over the range from `begin` to its end; the state is the range from `it_`.
  unfoldable pub iterator_next : List T → Option T × List T
  iterator_next [] = (none, [])
  iterator_next (x ∷ rest) = (some x, rest)

  abbrev pub iterator : List T → Operator (List T) T
  iterator begin = record { next = iterator_next; reset = λ it. begin }

  -- `Empty`
  unfoldable pub empty_next : Unit {0} → Option T × Unit {0}
  empty_next s = (none, s)

  abbrev pub empty : Operator (Unit {0}) T
  empty = record { next = empty_next; reset = λ s. s }

  iterator_rest : (begin it : List T) → Yields (iterator begin) it it
  unfolding iterator_next
  iterator_rest begin [] = refl
  iterator_rest begin (x ∷ rest) = (refl, iterator_rest begin rest)

  -- An iterator that is reset gives its whole range, whatever it gave before.
  pub iterator-Yields :
      (begin it : List T) → Yields (iterator begin) ((iterator begin).reset it) begin
  iterator-Yields begin it = iterator_rest begin begin

module _ {ℓ κ μ} {S : Type ℓ} {From : Type κ} {To : Type μ} (f : From → To)
    (child : Operator S From) where
  -- `Map`
  unfoldable pub map_next : S → Option To × S
  map_next s =
      let (x, s') = child.next s in elim x [ some a ↦ (some (f a), s') | none ↦ (none, s') ]

  abbrev pub map_operator : Operator S To
  map_operator = record { next = map_next; reset = child.reset }

  map_next_rest : (s : S) → (map_next s).1 ≡ (child.next s).1
  unfolding map_next
  map_next_rest s = ground arith

  -- A map over a child gives the images of what the child gives, in order.
  pub map_operator-Yields :
      (s : S) (xs : List From) → Yields child s xs → Yields map_operator s (map f xs)
  unfolding map_next
  map_operator-Yields s [] h = ground arith
  map_operator-Yields s (x ∷ xs) (h, k) = (
    ground arith,
    subst (λ t. Yields map_operator t (map f xs)) (sym (map_next_rest s))
        (map_operator-Yields (child.next s).1 xs k),
  )
