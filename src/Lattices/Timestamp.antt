-- ===== src/Lattices/Timestamp.antt =====
-- src/lattices/timestamp_lattice.h.
pub mod Laws
pub mod Partial
pub mod MaxTimestamp
use lattice_flow.Base.{Bool, ◌&&◌, if◌then◌else◌}
use lattice_flow.Lattices.Lattice.{Lattice, eq}

pub record TimestampLattice {ℓ κ} (Timestamp : Type ℓ) (L : Type κ) : Type (ℓ ⊔ κ) where
  pub p : Timestamp × L

module _ {ℓ κ} {Timestamp : Type ℓ} {L : Type κ} where
  abbrev pub timestamp : TimestampLattice Timestamp L → Timestamp
  timestamp s = s.p.0

  abbrev pub value : TimestampLattice Timestamp L → L
  value s = s.p.1

-- `lt` is the `operator<` of the timestamps.
module _ {ℓ κ ℓ' κ'} {Timestamp : Type ℓ} {T : Type κ} {L : Type ℓ'} {U : Type κ'}
    (𝓣 : Lattice Timestamp T) (lt : Timestamp → Timestamp → Bool) (𝓛 : Lattice L U) where
  unfoldable pub join :
      TimestampLattice Timestamp L → TimestampLattice Timestamp L → TimestampLattice Timestamp L
  join s l =
      if lt (timestamp s) (timestamp l)
      then record { p = l.p }
      else if lt (timestamp l) (timestamp s)
      then s
      else record { p = (𝓣.join s.p.0 l.p.0, 𝓛.join s.p.1 l.p.1) }

  unfoldable pub pair_eq : Timestamp × L → Timestamp × L → Bool
  pair_eq s l = eq 𝓣 s.0 l.0 && eq 𝓛 s.1 l.1

  abbrev pub timestamp_lattice : Lattice (TimestampLattice Timestamp L) (Timestamp × L)
  timestamp_lattice = record { get = λ s. s.p; join = join; value_eq = pair_eq }
