-- ===== src/Lattices.antt =====
-- src/lattices: the lattice interface and the lattices of the library.
pub mod Lattice
pub mod Order
pub mod BoolOr
pub mod BoolAnd
pub mod Max
pub mod Min
pub mod SetUnion
pub mod SetIntersect
pub mod Pair
pub mod Observed
pub mod MapLattice
pub mod Timestamp
pub mod Array
pub mod Vector
pub mod Converge
