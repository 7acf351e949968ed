-- ===== src/Lattices/BoolOr.antt =====
-- src/lattices/bool_or_lattice.h
use lattice_flow.Base.{
  ℕ, ◌≡◌, Bool, true, false, not, ◌&&◌, ◌||◌, arith, if◌then◌else◌, ltb, leb, nat_beq, bool_eq,
}
use lattice_flow.Lattices.Lattice
use lattice_flow.Lattices.Lattice.{Lattice, IsLattice}

pub record BoolOrLattice : Type 0 where
  pub b : Bool

-- The default constructor.
unfoldable pub init : BoolOrLattice
init = record { b = false }

unfoldable pub join : BoolOrLattice → BoolOrLattice → BoolOrLattice
join x l = record { b = x.b || l.b }

abbrev pub bool_or : Lattice BoolOrLattice Bool
bool_or = record { get = λ x. x.b; join = join; value_eq = bool_eq }

unfoldable pub convert : BoolOrLattice → ℕ
convert x = if x.b then 1 else 0

-- The friend operators compare what `convert` returns.
unfoldable pub lt : BoolOrLattice → BoolOrLattice → Bool
unfolding convert
lt x y = ltb (convert x) (convert y)

unfoldable pub le : BoolOrLattice → BoolOrLattice → Bool
unfolding convert
le x y = leb (convert x) (convert y)

unfoldable pub gt : BoolOrLattice → BoolOrLattice → Bool
unfolding convert
gt x y = ltb (convert y) (convert x)

unfoldable pub ge : BoolOrLattice → BoolOrLattice → Bool
unfolding convert
ge x y = leb (convert y) (convert x)

unfoldable pub eq : BoolOrLattice → BoolOrLattice → Bool
unfolding convert
eq x y = nat_beq (convert x) (convert y)

unfoldable pub ne : BoolOrLattice → BoolOrLattice → Bool
unfolding convert
ne x y = not (nat_beq (convert x) (convert y))

-- BoolOrLattice is a join semilattice: up to `==`, which is an equivalence, `join` is idempotent,
-- commutative and associative, and it respects `==`.
pub bool_or-IsLattice : IsLattice bool_or
unfolding join
bool_or-IsLattice = record {
  eq_refl = λ a. ground arith;
  eq_sym = λ a b h. ground arith;
  eq_trans = λ a b c h k. ground arith;
  join_idem = λ a. ground arith;
  join_comm = λ a b. ground arith;
  join_assoc = λ a b c. ground arith;
  join_cong = λ a b c d h k. ground arith;
}

-- The default value is below every other.
init-le : (x : BoolOrLattice) → Lattice.le bool_or init x ≡ true
unfolding init join
init-le x = ground arith

-- The friend operators of BoolOrLattice, defined by `convert`, agree with those that `join` gives: `<=` is
-- the derived order and `>=` its converse, `==` and `!=` are the derived equality and its negation,
-- `<` is the derived order without equality, and `>` is the converse of `<`.
pub bool_or_friends-derived :
    (x y : BoolOrLattice)
    → (le x y ≡ Lattice.le bool_or x y)
      × (ge x y ≡ Lattice.le bool_or y x)
      × (eq x y ≡ Lattice.eq bool_or x y)
      × (ne x y ≡ Lattice.ne bool_or x y)
      × (lt x y ≡ (Lattice.le bool_or x y && Lattice.ne bool_or x y))
      × (gt x y ≡ (Lattice.le bool_or y x && Lattice.ne bool_or x y))
unfolding le ge eq ne lt gt join
bool_or_friends-derived x y = ground arith
