-- ===== src/Tests/LatticeRuns.antt =====
-- Lattices of numbers: src/lattices.
use lattice_flow.Base.{◌≡◌, refl, Bool, false, ◌&&◌, ℕ, nat_eq, nat_ord}
use lattice_flow.Lattices.Lattice.{Lattice, IsLattice, eq, le, ne}
use lattice_flow.Lattices.Max
use lattice_flow.Lattices.Max.{MaxLattice, max_lattice, max_lattice-IsLattice, max_friends-derived}
use lattice_flow.Lattices.Pair
use lattice_flow.Lattices.Pair.{PairLattice, pair_lattice, pair_lattice-IsLattice}
use lattice_flow.Lattices.Timestamp
use lattice_flow.Lattices.Timestamp.{timestamp_lattice}
use lattice_flow.Lattices.Timestamp.Partial.{IsStrict, join-incomparable}

abbrev maximum : Lattice (MaxLattice ℕ) ℕ
maximum = max_lattice

maximum-IsLattice : IsLattice maximum
maximum-IsLattice = max_lattice-IsLattice

abbrev at_most : ℕ → MaxLattice ℕ
at_most n = record { x = n }

-- Two counters that nothing orders: pairs of maxima.
abbrev clock : ℕ → ℕ → PairLattice (MaxLattice ℕ) (MaxLattice ℕ)
clock m n = record { p = (at_most m, at_most n) }

abbrev clocks : Lattice (PairLattice (MaxLattice ℕ) (MaxLattice ℕ)) (MaxLattice ℕ × MaxLattice ℕ)
clocks = pair_lattice maximum maximum

abbrev before :
    PairLattice (MaxLattice ℕ) (MaxLattice ℕ) → PairLattice (MaxLattice ℕ) (MaxLattice ℕ) → Bool
before s t = le clocks s t && ne clocks s t

clocks-IsLattice : IsLattice clocks
clocks-IsLattice = pair_lattice-IsLattice maximum maximum maximum-IsLattice maximum-IsLattice

before-IsStrict : IsStrict clocks before
before-IsStrict = record { lt-le_ne = λ s t. refl }

not_before : le clocks (clock 1 0) (clock 0 1) ≡ false
unfolding Pair.join Pair.pair_eq Max.join Max.std_max
not_before = refl

not_after : le clocks (clock 0 1) (clock 1 0) ≡ false
unfolding Pair.join Pair.pair_eq Max.join Max.std_max
not_after = refl

join-incomparable_example :
    eq
      (timestamp_lattice clocks before maximum)
      (Timestamp.join clocks before maximum
        (Timestamp.join clocks before maximum
          (record { p = (clock 1 0, at_most 3) })
          (record { p = (clock 0 1, at_most 4) }))
        (record { p = (clocks.join (clock 1 0) (clock 0 1), at_most 2) }))
      (Timestamp.join clocks before maximum
        (record { p = (clock 1 0, at_most 3) })
        (Timestamp.join clocks before maximum
          (record { p = (clock 0 1, at_most 4) })
          (record { p = (clocks.join (clock 1 0) (clock 0 1), at_most 2) })))
    ≡ le maximum (maximum.join (at_most 3) (at_most 4)) (at_most 2)
join-incomparable_example =
    join-incomparable clocks before maximum clocks-IsLattice before-IsStrict (clock 1 0) (clock 0 1)
      (at_most 3) (at_most 4) (at_most 2) not_before not_after
