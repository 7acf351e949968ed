-- ===== src/Lattices/Timestamp/MaxTimestamp.antt =====
-- The maximum lattice as a timestamp: its `operator<` is the total order that TimestampLattice needs.
use lattice_flow.Base.{arith, Ord}
use lattice_flow.Lattices.Max.{max_lattice, join, lt, std_max}
use lattice_flow.Lattices.Timestamp.Laws.{IsTotal}

module _ {ℓ} {T : Type ℓ} ⦃o : Ord T⦄ where
  pub max_lattice-IsTotal : IsTotal (max_lattice {T = T}) lt
  unfolding join lt std_max
  max_lattice-IsTotal = record {
    lt-not_le = λ s t. ground (
      arith,
      o.lt_total s.x t.x,
      o.lt_irrefl s.x,
      o.lt_trans s.x t.x s.x,
      o.eq.beq_iff t.x s.x,
      o.eq.beq_iff s.x s.x,
    );
    total = λ s t. ground (
      arith,
      o.lt_trans s.x t.x s.x,
      o.lt_irrefl s.x,
      o.lt_total s.x t.x,
      o.eq.beq_iff s.x t.x,
      o.eq.beq_iff t.x s.x,
      o.eq.beq_iff s.x s.x,
      o.eq.beq_iff t.x t.x,
    );
  }
