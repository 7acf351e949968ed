-- ===== src/Lattices/Min.antt =====
-- src/lattices/min_lattice.h
use lattice_flow.Base.{
  ◌≡◌, Bool, true, not, ◌&&◌, arith, if◌then◌else◌, Ord, beq_refl, beq_sym, beq_trans,
}
use lattice_flow.Lattices.Lattice
use lattice_flow.Lattices.Lattice.{Lattice, IsLattice}

pub record MinLattice {ℓ} (T : Type ℓ) : Type ℓ where
  pub x : T

module _ {ℓ} {T : Type ℓ} ⦃o : Ord T⦄ where
  -- `std::min`
  unfoldable pub std_min : T → T → T
  std_min a b = if o.lt b a then b else a

  unfoldable pub join : MinLattice T → MinLattice T → MinLattice T
  unfolding std_min
  join a l = record { x = std_min a.x l.x }

  unfoldable pub lt : MinLattice T → MinLattice T → Bool
  lt a b = o.lt b.x a.x

  -- `x <= y` of the element type is `!(y < x)`.
  unfoldable pub le : MinLattice T → MinLattice T → Bool
  le a b = not (o.lt a.x b.x)

  unfoldable pub gt : MinLattice T → MinLattice T → Bool
  gt a b = o.lt a.x b.x

  unfoldable pub ge : MinLattice T → MinLattice T → Bool
  ge a b = not (o.lt b.x a.x)

  unfoldable pub eq : MinLattice T → MinLattice T → Bool
  eq a b = o.eq.beq a.x b.x

  unfoldable pub ne : MinLattice T → MinLattice T → Bool
  ne a b = not (o.eq.beq a.x b.x)

  abbrev pub min_lattice : Lattice (MinLattice T) T
  min_lattice = record { get = λ a. a.x; join = join; value_eq = o.eq.beq }

  std_min_assoc : (a b c : T) → std_min (std_min a b) c ≡ std_min a (std_min b c)
  unfolding std_min
  std_min_assoc a b c = ground (
    arith,
    o.lt_trans a b c,
    o.lt_trans b c a,
    o.lt_trans a c b,
    o.lt_trans c b a,
    o.lt_total a b,
    o.lt_total b c,
    o.lt_total a c,
  )

  std_min_comm : (a b : T) → std_min a b ≡ std_min b a
  unfolding std_min
  std_min_comm a b = ground (arith, o.lt_total a b, o.lt_trans a b a, o.lt_irrefl a)

  std_min_idem : (a : T) → std_min a a ≡ a
  unfolding std_min
  std_min_idem a = ground arith

  beq_of_eq : (a b : T) → a ≡ b → o.eq.beq a b ≡ true
  beq_of_eq a b = (o.eq.beq_iff a b).1

  -- For an element type with a strict total order, MinLattice is a join semilattice: up to `==`, which is
  -- an equivalence, `join` is idempotent, commutative and associative, and it respects `==`.
  pub min_lattice-IsLattice : IsLattice min_lattice
  unfolding join
  min_lattice-IsLattice = record {
    eq_refl = λ a. beq_refl ⦃e = o.eq⦄ a.x;
    eq_sym = λ a b. beq_sym ⦃e = o.eq⦄ a.x b.x;
    eq_trans = λ a b c. beq_trans ⦃e = o.eq⦄ a.x b.x c.x;
    join_idem = λ a. beq_of_eq (std_min a.x a.x) a.x (std_min_idem a.x);
    join_comm = λ a b. beq_of_eq (std_min a.x b.x) (std_min b.x a.x) (std_min_comm a.x b.x);
    join_assoc = λ a b c. beq_of_eq _ _ (std_min_assoc a.x b.x c.x);
    join_cong = λ a b c d h k.
        beq_of_eq _ _ (λ i. std_min ((o.eq.beq_iff a.x b.x).0 h i) ((o.eq.beq_iff c.x d.x).0 k i));
  }

  -- The friend operators of MinLattice, which compare the elements, agree with those that `join` gives:
  -- `<=` is the derived order and `>=` its converse, `==` and `!=` are the derived equality and its
  -- negation, `<` is the derived order without equality, and `>` is the converse of `<`. The element
  -- type has a strict total order.
  pub min_friends-derived :
      (a b : MinLattice T)
      → (le a b ≡ Lattice.le min_lattice a b)
        × (ge a b ≡ Lattice.le min_lattice b a)
        × (eq a b ≡ Lattice.eq min_lattice a b)
        × (ne a b ≡ Lattice.ne min_lattice a b)
        × (lt a b ≡ (Lattice.le min_lattice a b && Lattice.ne min_lattice a b))
        × (gt a b ≡ (Lattice.le min_lattice b a && Lattice.ne min_lattice a b))
  unfolding le ge eq ne lt gt join std_min
  min_friends-derived a b = ground (
    arith,
    o.lt_total a.x b.x,
    o.lt_irrefl a.x,
    o.lt_trans a.x b.x a.x,
    o.eq.beq_iff a.x b.x,
    o.eq.beq_iff b.x a.x,
    o.eq.beq_iff a.x a.x,
    o.eq.beq_iff b.x b.x,
  )
