-- ===== src/Lattices/Max.antt =====
-- src/lattices/max_lattice.h
use lattice_flow.Base.{
  ◌≡◌, Bool, true, not, ◌&&◌, arith, if◌then◌else◌, Ord, beq_refl, beq_sym, beq_trans,
}
use lattice_flow.Lattices.Lattice
use lattice_flow.Lattices.Lattice.{Lattice, IsLattice}

pub record MaxLattice {ℓ} (T : Type ℓ) : Type ℓ where
  pub x : T

module _ {ℓ} {T : Type ℓ} ⦃o : Ord T⦄ where
  -- `std::max`
  unfoldable pub std_max : T → T → T
  std_max a b = if o.lt a b then b else a

  unfoldable pub join : MaxLattice T → MaxLattice T → MaxLattice T
  unfolding std_max
  join a l = record { x = std_max a.x l.x }

  unfoldable pub lt : MaxLattice T → MaxLattice T → Bool
  lt a b = o.lt a.x b.x

  -- `x <= y` of the element type is `!(y < x)`.
  unfoldable pub le : MaxLattice T → MaxLattice T → Bool
  le a b = not (o.lt b.x a.x)

  unfoldable pub gt : MaxLattice T → MaxLattice T → Bool
  gt a b = o.lt b.x a.x

  unfoldable pub ge : MaxLattice T → MaxLattice T → Bool
  ge a b = not (o.lt a.x b.x)

  unfoldable pub eq : MaxLattice T → MaxLattice T → Bool
  eq a b = o.eq.beq a.x b.x

  unfoldable pub ne : MaxLattice T → MaxLattice T → Bool
  ne a b = not (o.eq.beq a.x b.x)

  abbrev pub max_lattice : Lattice (MaxLattice T) T
  max_lattice = record { get = λ a. a.x; join = join; value_eq = o.eq.beq }

  std_max_assoc : (a b c : T) → std_max (std_max a b) c ≡ std_max a (std_max b c)
  unfolding std_max
  std_max_assoc a b c = ground (
    arith,
    o.lt_trans a b c,
    o.lt_trans b c a,
    o.lt_trans a c b,
    o.lt_trans c b a,
    o.lt_total a b,
    o.lt_total b c,
    o.lt_total a c,
  )

  std_max_comm : (a b : T) → std_max a b ≡ std_max b a
  unfolding std_max
  std_max_comm a b = ground (arith, o.lt_total a b, o.lt_trans a b a, o.lt_irrefl a)

  std_max_idem : (a : T) → std_max a a ≡ a
  unfolding std_max
  std_max_idem a = ground arith

  beq_of_eq : (a b : T) → a ≡ b → o.eq.beq a b ≡ true
  beq_of_eq a b = (o.eq.beq_iff a b).1

  -- For an element type with a strict total order, MaxLattice is a join semilattice: up to `==`, which is
  -- an equivalence, `join` is idempotent, commutative and associative, and it respects `==`.
  pub max_lattice-IsLattice : IsLattice max_lattice
  unfolding join
  max_lattice-IsLattice = record {
    eq_refl = λ a. beq_refl ⦃e = o.eq⦄ a.x;
    eq_sym = λ a b. beq_sym ⦃e = o.eq⦄ a.x b.x;
    eq_trans = λ a b c. beq_trans ⦃e = o.eq⦄ a.x b.x c.x;
    join_idem = λ a. beq_of_eq (std_max a.x a.x) a.x (std_max_idem a.x);
    join_comm = λ a b. beq_of_eq (std_max a.x b.x) (std_max b.x a.x) (std_max_comm a.x b.x);
    join_assoc = λ a b c. beq_of_eq _ _ (std_max_assoc a.x b.x c.x);
    join_cong = λ a b c d h k.
        beq_of_eq _ _ (λ i. std_max ((o.eq.beq_iff a.x b.x).0 h i) ((o.eq.beq_iff c.x d.x).0 k i));
  }

  -- The friend operators of MaxLattice, which compare the elements, agree with those that `join` gives:
  -- `<=` is the derived order and `>=` its converse, `==` and `!=` are the derived equality and its
  -- negation, `<` is the derived order without equality, and `>` is the converse of `<`. The element
  -- type has a strict total order.
  pub max_friends-derived :
      (a b : MaxLattice T)
      → (le a b ≡ Lattice.le max_lattice a b)
        × (ge a b ≡ Lattice.le max_lattice b a)
        × (eq a b ≡ Lattice.eq max_lattice a b)
        × (ne a b ≡ Lattice.ne max_lattice a b)
        × (lt a b ≡ (Lattice.le max_lattice a b && Lattice.ne max_lattice a b))
        × (gt a b ≡ (Lattice.le max_lattice b a && Lattice.ne max_lattice a b))
  unfolding le ge eq ne lt gt join std_max
  max_friends-derived a b = ground (
    arith,
    o.lt_total a.x b.x,
    o.lt_irrefl a.x,
    o.lt_trans a.x b.x a.x,
    o.eq.beq_iff a.x b.x,
    o.eq.beq_iff b.x a.x,
    o.eq.beq_iff a.x a.x,
    o.eq.beq_iff b.x b.x,
  )
