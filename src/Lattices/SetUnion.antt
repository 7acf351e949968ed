-- ===== src/Lattices/SetUnion.antt =====
-- src/lattices/set_union_lattice.h.
use lattice_flow.Base.{◌≡◌, ◌||◌, arith, Eq, ◌==◌}
use lattice_flow.Lattices.Lattice.{Lattice, IsLattice}
use lattice_flow.Lattices.Observed.{observed-IsLattice}
use lattice_flow.Std.UnorderedSet
use lattice_flow.Std.UnorderedSet.{
  UnorderedSet, contains, insert_all, set_eq, set_eq_iff, IsDistinct, insert_all-IsDistinct,
  insert-IsDistinct, contains-insert, contains-insert_all,
}

pub record SetUnionLattice {ℓ} (T : Type ℓ) : Type ℓ where
  pub xs : UnorderedSet T

module _ {ℓ} {T : Type ℓ} ⦃e : Eq T⦄ where
  -- `xs_.insert(begin(l.xs_), end(l.xs_))`
  unfoldable pub join : SetUnionLattice T → SetUnionLattice T → SetUnionLattice T
  join s l = record { xs = insert_all l.xs s.xs }

  unfoldable pub insert : T → SetUnionLattice T → SetUnionLattice T
  insert x s = record { xs = UnorderedSet.insert x s.xs }

  abbrev pub set_union : Lattice (SetUnionLattice T) (UnorderedSet T)
  set_union = record { get = λ s. s.xs; join = join; value_eq = set_eq }

  pub contains-join :
      (x : T) (a b : SetUnionLattice T)
      → contains x (join a b).xs ≡ (contains x a.xs || contains x b.xs)
  unfolding join
  contains-join x a b = contains-insert_all x b.xs a.xs

  -- SetUnionLattice is a join semilattice: up to `==` of sets, which is an equivalence, `join` is
  -- idempotent, commutative and associative, and it respects `==`.
  pub set_union-IsLattice : IsLattice set_union
  set_union-IsLattice =
      observed-IsLattice set_union (λ x a. contains x a.xs) (λ a b. set_eq_iff a.xs b.xs) ◌||◌
        (λ p. ground arith) (λ p q. ground arith) (λ p q r. ground arith) contains-join

  -- The join of two sets holds the elements of both and no others, an insertion adds the one
  -- element and no other, and neither ever holds an element twice.
  pub join-union :
      (a b : SetUnionLattice T) (x y : T)
      → IsDistinct a.xs
      → (contains y (join a b).xs ≡ (contains y a.xs || contains y b.xs))
        × (contains y (insert x a).xs ≡ (x == y || contains y a.xs))
        × IsDistinct (join a b).xs
        × IsDistinct (insert x a).xs
  unfolding join insert
  join-union a b x y d = (
    contains-join y a b,
    contains-insert y x a.xs,
    insert_all-IsDistinct b.xs a.xs d,
    insert-IsDistinct x a.xs d,
  )
