-- ===== src/Lattices/SetIntersect.antt =====
-- src/lattices/set_intersect_lattice.h.
use lattice_flow.Base.{◌≡◌, refl, ◌&&◌, List, [], ◌∷◌, arith, Eq, if◌then◌else◌}
use lattice_flow.Lattices.Lattice.{Lattice, IsLattice}
use lattice_flow.Lattices.Observed.{observed-IsLattice}
use lattice_flow.Std.UnorderedSet.{UnorderedSet, contains, set_eq, set_eq_iff, IsDistinct}

pub record SetIntersectLattice {ℓ} (T : Type ℓ) : Type ℓ where
  pub xs : UnorderedSet T

module _ {ℓ} {T : Type ℓ} ⦃e : Eq T⦄ where
  -- The loop of `join`: the iterator moves past an element that the other set holds, and erases one
  -- that it does not.
  unfoldable pub erase_missing : List T → UnorderedSet T → UnorderedSet T
  erase_missing [] l = []
  erase_missing (x ∷ xs) l =
      let rest = erase_missing xs l in if contains x l then x ∷ rest else rest

  unfoldable pub join : SetIntersectLattice T → SetIntersectLattice T → SetIntersectLattice T
  unfolding erase_missing
  join s l = record { xs = erase_missing s.xs l.xs }

  abbrev pub set_intersect : Lattice (SetIntersectLattice T) (UnorderedSet T)
  set_intersect = record { get = λ s. s.xs; join = join; value_eq = set_eq }

  contains-erase_missing :
      (x : T) (xs : List T) (l : UnorderedSet T)
      → contains x (erase_missing xs l) ≡ (contains x xs && contains x l)
  unfolding erase_missing contains
  contains-erase_missing x [] l = refl
  contains-erase_missing x (y ∷ xs) l = ground (arith, contains-erase_missing x xs l, e.beq_iff y x)

  contains-join :
      (x : T) (a b : SetIntersectLattice T)
      → contains x (join a b).xs ≡ (contains x a.xs && contains x b.xs)
  unfolding join
  contains-join x a b = contains-erase_missing x a.xs b.xs

  erase_missing-IsDistinct :
      (xs : List T) (l : UnorderedSet T) → IsDistinct xs → IsDistinct (erase_missing xs l)
  unfolding erase_missing
  erase_missing-IsDistinct [] l d = tt
  erase_missing-IsDistinct (x ∷ xs) l d =
      ground (arith, contains-erase_missing x xs l, erase_missing-IsDistinct xs l d.1)

  -- SetIntersectLattice is a join semilattice: up to `==` of sets, which is an equivalence, `join` is
  -- idempotent, commutative and associative, and it respects `==`.
  pub set_intersect-IsLattice : IsLattice set_intersect
  set_intersect-IsLattice =
      observed-IsLattice set_intersect (λ x a. contains x a.xs) (λ a b. set_eq_iff a.xs b.xs) ◌&&◌
        (λ p. ground arith) (λ p q. ground arith) (λ p q r. ground arith) contains-join

  -- The join of two sets holds exactly the elements that both hold, and no element twice.
  pub join-intersect :
      (a b : SetIntersectLattice T) (x : T)
      → IsDistinct a.xs
      → (contains x (join a b).xs ≡ (contains x a.xs && contains x b.xs)) × IsDistinct (join a b).xs
  unfolding join
  join-intersect a b x d = (contains-join x a b, erase_missing-IsDistinct a.xs b.xs d)
