-- ===== src/Lattices/Timestamp/Laws.antt =====
-- The lattice laws of TimestampLattice, for timestamps whose `operator<` is a total order.
use lattice_flow.Base.{◌≡◌, Bool, true, not, ◌||◌, arith, and-left, and-right, and-intro, Bool-ext}
use lattice_flow.Lattices.Lattice.{Lattice, IsLattice, eq, le}
use lattice_flow.Lattices.Order
use lattice_flow.Lattices.Timestamp.{TimestampLattice, join, pair_eq, timestamp_lattice}

-- `lt` is the strict part of the order that `join` gives, and any two timestamps are comparable.
pub record IsTotal {ℓ κ} {Timestamp : Type ℓ} {T : Type κ} (𝓣 : Lattice Timestamp T)
    (lt : Timestamp → Timestamp → Bool) : Type (ℓ ⊔ κ) where
  pub lt-not_le : (s t : Timestamp) → lt s t ≡ not (le 𝓣 t s)
  pub total : (s t : Timestamp) → (le 𝓣 s t || le 𝓣 t s) ≡ true

module _ {ℓ κ} {S : Type ℓ} {T : Type κ} (𝓣 : Lattice S T) (𝓵 : IsLattice 𝓣) where
  le_eq_left : (a b c : S) → eq 𝓣 a b ≡ true → le 𝓣 a c ≡ le 𝓣 b c
  le_eq_left a b c h =
      Bool-ext (le 𝓣 a c) (le 𝓣 b c)
        (λ k. Order.le_trans 𝓣 𝓵 b a c (Order.le_of_eq 𝓣 𝓵 b a (𝓵.eq_sym a b h)) k)
        (λ k. Order.le_trans 𝓣 𝓵 a b c (Order.le_of_eq 𝓣 𝓵 a b h) k)

  le_eq_right : (a b c : S) → eq 𝓣 a b ≡ true → le 𝓣 c a ≡ le 𝓣 c b
  le_eq_right a b c h =
      Bool-ext (le 𝓣 c a) (le 𝓣 c b) (λ k. Order.le_trans 𝓣 𝓵 c a b k (Order.le_of_eq 𝓣 𝓵 a b h))
        (λ k. Order.le_trans 𝓣 𝓵 c b a k (Order.le_of_eq 𝓣 𝓵 b a (𝓵.eq_sym a b h)))

  -- Against a third timestamp, the join of two that are `==` compares as either.
  le-join_tied :
      (a b c : S)
      → le 𝓣 a b ≡ true
      → le 𝓣 b a ≡ true
      → (le 𝓣 (𝓣.join a b) c ≡ le 𝓣 a c) × (le 𝓣 c (𝓣.join a b) ≡ le 𝓣 c a)
  le-join_tied a b c h k =
      let e : eq 𝓣 (𝓣.join a b) a ≡ true =
        𝓵.eq_trans (𝓣.join a b) (𝓣.join b a) a (𝓵.join_comm a b) k in
      (le_eq_left (𝓣.join a b) a c e, le_eq_right (𝓣.join a b) a c e)

module _ {ℓ κ ℓ' κ'} {S : Type ℓ} {T : Type κ} {L : Type ℓ'} {U : Type κ'} (𝓣 : Lattice S T)
    (lt : S → S → Bool) (𝓛 : Lattice L U) (𝓽 : IsLattice 𝓣) (t : IsTotal 𝓣 lt)
    (𝓵 : IsLattice 𝓛) where
  abbrev pair_refl : (p : S × L) → pair_eq 𝓣 lt 𝓛 p p ≡ true
  unfolding pair_eq
  pair_refl p = and-intro _ _ (𝓽.eq_refl p.0) (𝓵.eq_refl p.1)

  abbrev V : Type (ℓ ⊔ ℓ')
  V = TimestampLattice S L

  ts_comm : (a b : V) → eq (timestamp_lattice 𝓣 lt 𝓛) (join 𝓣 lt 𝓛 a b) (join 𝓣 lt 𝓛 b a) ≡ true
  unfolding join pair_eq
  ts_comm a b = ground (
    arith,
    t.lt-not_le a.p.0 b.p.0,
    t.lt-not_le b.p.0 a.p.0,
    t.total a.p.0 b.p.0,
    𝓽.eq_refl a.p.0,
    𝓽.eq_refl b.p.0,
    𝓵.eq_refl a.p.1,
    𝓵.eq_refl b.p.1,
    𝓽.join_comm a.p.0 b.p.0,
    𝓵.join_comm a.p.1 b.p.1,
  )

  ts_idem : (a : V) → eq (timestamp_lattice 𝓣 lt 𝓛) (join 𝓣 lt 𝓛 a a) a ≡ true
  unfolding join pair_eq
  ts_idem a = ground (
    arith,
    t.lt-not_le a.p.0 a.p.0,
    Order.le_refl 𝓣 𝓽 a.p.0,
    𝓽.join_idem a.p.0,
    𝓵.join_idem a.p.1,
  )

  ts_assoc :
      (a b c : V)
      → eq
          (timestamp_lattice 𝓣 lt 𝓛)
          (join 𝓣 lt 𝓛 (join 𝓣 lt 𝓛 a b) c)
          (join 𝓣 lt 𝓛 a (join 𝓣 lt 𝓛 b c))
        ≡ true
  unfolding join pair_eq
  ts_assoc a b c = ground (
    arith,
    t.lt-not_le a.p.0 b.p.0,
    t.lt-not_le b.p.0 a.p.0,
    t.lt-not_le b.p.0 c.p.0,
    t.lt-not_le c.p.0 b.p.0,
    t.lt-not_le a.p.0 c.p.0,
    t.lt-not_le c.p.0 a.p.0,
    t.lt-not_le (𝓣.join a.p.0 b.p.0) c.p.0,
    t.lt-not_le c.p.0 (𝓣.join a.p.0 b.p.0),
    t.lt-not_le (𝓣.join b.p.0 c.p.0) a.p.0,
    t.lt-not_le a.p.0 (𝓣.join b.p.0 c.p.0),
    le-join_tied 𝓣 𝓽 a.p.0 b.p.0 c.p.0,
    le-join_tied 𝓣 𝓽 b.p.0 c.p.0 a.p.0,
    Order.le_trans 𝓣 𝓽 a.p.0 b.p.0 c.p.0,
    Order.le_trans 𝓣 𝓽 a.p.0 c.p.0 b.p.0,
    Order.le_trans 𝓣 𝓽 b.p.0 a.p.0 c.p.0,
    Order.le_trans 𝓣 𝓽 b.p.0 c.p.0 a.p.0,
    Order.le_trans 𝓣 𝓽 c.p.0 a.p.0 b.p.0,
    Order.le_trans 𝓣 𝓽 c.p.0 b.p.0 a.p.0,
    t.total a.p.0 b.p.0,
    t.total b.p.0 c.p.0,
    t.total a.p.0 c.p.0,
    pair_refl a.p,
    pair_refl b.p,
    pair_refl c.p,
    𝓽.eq_refl (𝓣.join a.p.0 b.p.0),
    𝓵.eq_refl (𝓛.join a.p.1 b.p.1),
    𝓽.eq_refl (𝓣.join b.p.0 c.p.0),
    𝓵.eq_refl (𝓛.join b.p.1 c.p.1),
    𝓽.eq_refl (𝓣.join a.p.0 c.p.0),
    𝓵.eq_refl (𝓛.join a.p.1 c.p.1),
    𝓽.join_assoc a.p.0 b.p.0 c.p.0,
    𝓵.join_assoc a.p.1 b.p.1 c.p.1,
  )

  ts_cong :
      (a b c d : V)
      → eq (timestamp_lattice 𝓣 lt 𝓛) a b ≡ true
      → eq (timestamp_lattice 𝓣 lt 𝓛) c d ≡ true
      → eq (timestamp_lattice 𝓣 lt 𝓛) (join 𝓣 lt 𝓛 a c) (join 𝓣 lt 𝓛 b d) ≡ true
  unfolding join pair_eq
  ts_cong a b c d h k = ground (
    arith,
    t.lt-not_le a.p.0 c.p.0,
    t.lt-not_le b.p.0 d.p.0,
    t.lt-not_le c.p.0 a.p.0,
    t.lt-not_le d.p.0 b.p.0,
    le_eq_left 𝓣 𝓽 a.p.0 b.p.0 c.p.0,
    le_eq_right 𝓣 𝓽 a.p.0 b.p.0 c.p.0,
    le_eq_left 𝓣 𝓽 c.p.0 d.p.0 b.p.0,
    le_eq_right 𝓣 𝓽 c.p.0 d.p.0 b.p.0,
    𝓽.join_cong a.p.0 b.p.0 c.p.0 d.p.0,
    𝓵.join_cong a.p.1 b.p.1 c.p.1 d.p.1,
  )

  -- TimestampLattice of two lattices is a join semilattice, if any two timestamps are comparable and
  -- `<` is their strict order: up to `==`, which is an equivalence, `join` is idempotent, commutative
  -- and associative, and it respects `==`.
  pub timestamp_lattice-IsLattice : IsLattice (timestamp_lattice 𝓣 lt 𝓛)
  unfolding pair_eq
  timestamp_lattice-IsLattice = record {
    eq_refl = λ a. pair_refl a.p;
    eq_sym = λ a b h.
        and-intro _ _ (𝓽.eq_sym a.p.0 b.p.0 (and-left _ _ h))
          (𝓵.eq_sym a.p.1 b.p.1 (and-right _ _ h));
    eq_trans = λ a b c h k.
        and-intro _ _ (𝓽.eq_trans a.p.0 b.p.0 c.p.0 (and-left _ _ h) (and-left _ _ k))
          (𝓵.eq_trans a.p.1 b.p.1 c.p.1 (and-right _ _ h) (and-right _ _ k));
    join_idem = ts_idem;
    join_comm = ts_comm;
    join_assoc = ts_assoc;
    join_cong = ts_cong;
  }
