-- ===== src/Lattices/BoolAnd.antt =====
-- src/lattices/bool_and_lattice.h
use lattice_flow.Base.{
  ℕ, ◌≡◌, Bool, true, not, ◌&&◌, arith, if◌then◌else◌, ltb, leb, nat_beq, bool_eq,
}
use lattice_flow.Lattices.Lattice
use lattice_flow.Lattices.Lattice.{Lattice, IsLattice}

pub record BoolAndLattice : Type 0 where
  pub b : Bool

-- The default constructor.
unfoldable pub init : BoolAndLattice
init = record { b = true }

unfoldable pub join : BoolAndLattice → BoolAndLattice → BoolAndLattice
join x l = record { b = x.b && l.b }

abbrev pub bool_and : Lattice BoolAndLattice Bool
bool_and = record { get = λ x. x.b; join = join; value_eq = bool_eq }

unfoldable pub convert : BoolAndLattice → ℕ
convert x = if x.b then 0 else 1

-- The friend operators compare what `convert` returns.
unfoldable pub lt : BoolAndLattice → BoolAndLattice → Bool
unfolding convert
lt x y = ltb (convert x) (convert y)

unfoldable pub le : BoolAndLattice → BoolAndLattice → Bool
unfolding convert
le x y = leb (convert x) (convert y)

unfoldable pub gt : BoolAndLattice → BoolAndLattice → Bool
unfolding convert
gt x y = ltb (convert y) (convert x)

unfoldable pub ge : BoolAndLattice → BoolAndLattice → Bool
unfolding convert
ge x y = leb (convert y) (convert x)

unfoldable pub eq : BoolAndLattice → BoolAndLattice → Bool
unfolding convert
eq x y = nat_beq (convert x) (convert y)

unfoldable pub ne : BoolAndLattice → BoolAndLattice → Bool
unfolding convert
ne x y = not (nat_beq (convert x) (convert y))

-- BoolAndLattice is a join semilattice: up to `==`, which is an equivalence, `join` is idempotent,
-- commutative and associative, and it respects `==`.
pub bool_and-IsLattice : IsLattice bool_and
unfolding join
bool_and-IsLattice = record {
  eq_refl = λ a. ground arith;
  eq_sym = λ a b h. ground arith;
  eq_trans = λ a b c h k. ground arith;
  join_idem = λ a. ground arith;
  join_comm = λ a b. ground arith;
  join_assoc = λ a b c. ground arith;
  join_cong = λ a b c d h k. ground arith;
}

-- The default value is below every other.
init-le : (x : BoolAndLattice) → Lattice.le bool_and init x ≡ true
unfolding init join
init-le x = ground arith

-- The friend operators of BoolAndLattice, defined by `convert`, agree with those that `join` gives: `<=` is
-- the derived order and `>=` its converse, `==` and `!=` are the derived equality and its negation,
-- `<` is the derived order without equality, and `>` is the converse of `<`.
bool_and_friends-derived :
    (x y : BoolAndLattice)
    → (le x y ≡ Lattice.le bool_and x y)
      × (ge x y ≡ Lattice.le bool_and y x)
      × (eq x y ≡ Lattice.eq bool_and x y)
      × (ne x y ≡ Lattice.ne bool_and x y)
      × (lt x y ≡ (Lattice.le bool_and x y && Lattice.ne bool_and x y))
      × (gt x y ≡ (Lattice.le bool_and y x && Lattice.ne bool_and x y))
unfolding le ge eq ne lt gt join
bool_and_friends-derived x y = ground arith
