-- ===== src/Lattices/Timestamp/Partial.antt =====
-- What TimestampLattice does with timestamps that are not comparable.
use lattice_flow.Base.{◌≡◌, Bool, false, ◌&&◌, arith}
use lattice_flow.Lattices.Lattice.{Lattice, IsLattice, eq, ne, le}
use lattice_flow.Lattices.Order
use lattice_flow.Lattices.Timestamp.{join, pair_eq, timestamp_lattice}

-- `lt` is the order that `join` gives, without equality.
pub record IsStrict {ℓ κ} {Timestamp : Type ℓ} {T : Type κ} (𝓣 : Lattice Timestamp T)
    (lt : Timestamp → Timestamp → Bool) : Type ℓ where
  pub lt-le_ne : (s t : Timestamp) → lt s t ≡ (le 𝓣 s t && ne 𝓣 s t)

module _ {ℓ κ ℓ' κ'} {S : Type ℓ} {T : Type κ} {L : Type ℓ'} {U : Type κ'} (𝓣 : Lattice S T)
    (lt : S → S → Bool) (𝓛 : Lattice L U) (𝓽 : IsLattice 𝓣) (strict : IsStrict 𝓣 lt) where
  -- Take a value at each of two timestamps that are not comparable, and a third value at the join of
  -- the two timestamps. To join the first two and then the third gives the same as to join the last
  -- two and then the first only if the third value is above the other two: `join` is not associative.
  pub join-incomparable :
      (a b : S) (x y z : L)
      → le 𝓣 a b ≡ false
      → le 𝓣 b a ≡ false
      → eq
          (timestamp_lattice 𝓣 lt 𝓛)
          (join 𝓣 lt 𝓛
            (join 𝓣 lt 𝓛 (record { p = (a, x) }) (record { p = (b, y) }))
            (record { p = (𝓣.join a b, z) }))
          (join 𝓣 lt 𝓛
            (record { p = (a, x) })
            (join 𝓣 lt 𝓛 (record { p = (b, y) }) (record { p = (𝓣.join a b, z) })))
        ≡ le 𝓛 (𝓛.join x y) z
  unfolding join pair_eq
  join-incomparable a b x y z h k = ground (
    arith,
    strict.lt-le_ne a b,
    strict.lt-le_ne b a,
    strict.lt-le_ne a (𝓣.join a b),
    strict.lt-le_ne b (𝓣.join a b),
    strict.lt-le_ne (𝓣.join a b) (𝓣.join a b),
    𝓽.eq_refl (𝓣.join a b),
    𝓽.join_idem (𝓣.join a b),
    Order.le-join_left 𝓣 𝓽 a b,
    Order.le-join_right 𝓣 𝓽 a b,
    Order.le_of_eq 𝓣 𝓽 (𝓣.join a b) b,
    Order.le_of_eq 𝓣 𝓽 (𝓣.join a b) a,
    𝓽.eq_sym b (𝓣.join a b),
    𝓽.eq_sym a (𝓣.join a b),
    Order.le_trans 𝓣 𝓽 a (𝓣.join a b) b,
    Order.le_trans 𝓣 𝓽 b (𝓣.join a b) a,
  )
