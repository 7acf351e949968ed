-- ===== src/Lattices/Pair.antt =====
-- src/lattices/pair_lattice.h.
use lattice_flow.Base.{◌≡◌, refl, Bool, ◌&&◌, and-left, and-right, and-intro}
use lattice_flow.Lattices.Lattice
use lattice_flow.Lattices.Lattice.{Lattice, IsLattice}

pub record PairLattice {ℓ κ} (L : Type ℓ) (R : Type κ) : Type (ℓ ⊔ κ) where
  pub p : L × R

module _ {ℓ κ ℓ' κ'} {L : Type ℓ} {T : Type κ} {R : Type ℓ'} {U : Type κ'} (𝓛 : Lattice L T)
    (𝓡 : Lattice R U) where
  unfoldable pub join : PairLattice L R → PairLattice L R → PairLattice L R
  join s l = record { p = (𝓛.join s.p.0 l.p.0, 𝓡.join s.p.1 l.p.1) }

  -- `operator==` of `std::pair`, which calls that of each part.
  unfoldable pub pair_eq : L × R → L × R → Bool
  pair_eq s l = Lattice.eq 𝓛 s.0 l.0 && Lattice.eq 𝓡 s.1 l.1

  abbrev pub pair_lattice : Lattice (PairLattice L R) (L × R)
  pair_lattice = record { get = λ s. s.p; join = join; value_eq = pair_eq }

  -- The order of pairs is componentwise.
  pub le-and_le :
      (a b : PairLattice L R)
      → Lattice.le pair_lattice a b ≡ (Lattice.le 𝓛 a.p.0 b.p.0 && Lattice.le 𝓡 a.p.1 b.p.1)
  unfolding join pair_eq
  le-and_le a b = refl

  -- PairLattice of two lattices is a join semilattice: up to `==`, which is an equivalence, `join` is
  -- idempotent, commutative and associative, and it respects `==`.
  pub pair_lattice-IsLattice : IsLattice 𝓛 → IsLattice 𝓡 → IsLattice pair_lattice
  unfolding join pair_eq
  pair_lattice-IsLattice l r = record {
    eq_refl = λ a. and-intro _ _ (l.eq_refl a.p.0) (r.eq_refl a.p.1);
    eq_sym = λ a b h.
        and-intro _ _ (l.eq_sym a.p.0 b.p.0 (and-left _ _ h))
          (r.eq_sym a.p.1 b.p.1 (and-right _ _ h));
    eq_trans = λ a b c h k.
        and-intro _ _ (l.eq_trans a.p.0 b.p.0 c.p.0 (and-left _ _ h) (and-left _ _ k))
          (r.eq_trans a.p.1 b.p.1 c.p.1 (and-right _ _ h) (and-right _ _ k));
    join_idem = λ a. and-intro _ _ (l.join_idem a.p.0) (r.join_idem a.p.1);
    join_comm = λ a b. and-intro _ _ (l.join_comm a.p.0 b.p.0) (r.join_comm a.p.1 b.p.1);
    join_assoc =
        λ a b c. and-intro _ _ (l.join_assoc a.p.0 b.p.0 c.p.0) (r.join_assoc a.p.1 b.p.1 c.p.1);
    join_cong = λ a b c d h k.
        and-intro _ _ (l.join_cong a.p.0 b.p.0 c.p.0 d.p.0 (and-left _ _ h) (and-left _ _ k))
          (r.join_cong a.p.1 b.p.1 c.p.1 d.p.1 (and-right _ _ h) (and-right _ _ k));
  }
