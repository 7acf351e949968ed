-- ===== src/Lattices/Vector.antt =====
-- src/lattices/vector_lattice.h.
pub mod Laws
use lattice_flow.Base.{
  Bool, true, false, ◌&&◌, List, [], ◌∷◌, ◌++◌, length, drop, ltb, if◌then◌else◌,
}
use lattice_flow.Lattices.Lattice.{Lattice, eq}

pub record VectorLattice {ℓ} (T : Type ℓ) : Type ℓ where
  pub xs : List T

module _ {ℓ κ} {T : Type ℓ} {U : Type κ} (𝓛 : Lattice T U) where
  -- The loop of `join` over the indices that both vectors have.
  unfoldable pub join_prefix : List T → List T → List T
  join_prefix [] ys = []
  join_prefix (x ∷ xs) [] = x ∷ xs
  join_prefix (x ∷ xs) (y ∷ ys) = 𝓛.join x y ∷ join_prefix xs ys

  -- The `insert` after the loop: a shorter vector gets the rest of the longer one.
  unfoldable pub extend : List T → List T → List T
  extend xs ys = if ltb (length xs) (length ys) then xs ++ drop (length xs) ys else xs

  unfoldable pub join : VectorLattice T → VectorLattice T → VectorLattice T
  unfolding join_prefix extend
  join s l = record { xs = extend (join_prefix s.xs l.xs) l.xs }

  -- `operator==` of `std::vector`: the same size and `==` elements.
  unfoldable pub vector_eq : List T → List T → Bool
  vector_eq [] [] = true
  vector_eq [] (y ∷ ys) = false
  vector_eq (x ∷ xs) [] = false
  vector_eq (x ∷ xs) (y ∷ ys) = eq 𝓛 x y && vector_eq xs ys

  abbrev pub vector_lattice : Lattice (VectorLattice T) (List T)
  vector_lattice = record { get = λ s. s.xs; join = join; value_eq = vector_eq }
