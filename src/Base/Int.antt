-- ===== src/Base/Int.antt =====
-- The integers over the native numbers, with the order of `int`.
use Prim.Native.Nat.{ℕ}
use mathlib.Core.Path.{◌≡◌}
use mathlib.Core.Logic.{◌↔◌}
use mathlib.Core.Bool.{Bool, true, false}
use native.Mathlib.Omega.{arith}
use lattice_flow.Base.Tests.{ltb, nat_beq}
use lattice_flow.Base.Classes.{Eq, Ord}

-- `negsuc n` is -(n + 1).
pub data ℤ : Type 0 where
  pos : ℕ → ℤ
  negsuc : ℕ → ℤ

abbrev pub int_eq : ℤ → ℤ → Bool
int_eq (pos a) (pos b) = nat_beq a b
int_eq (pos a) (negsuc b) = false
int_eq (negsuc a) (pos b) = false
int_eq (negsuc a) (negsuc b) = nat_beq a b

abbrev pub int_lt : ℤ → ℤ → Bool
int_lt (pos a) (pos b) = ltb a b
int_lt (pos a) (negsuc b) = false
int_lt (negsuc a) (pos b) = true
int_lt (negsuc a) (negsuc b) = ltb b a

pub int_eq_iff : (a b : ℤ) → (int_eq a b ≡ true) ↔ (a ≡ b)
int_eq_iff (pos a) (pos b) = ground arith
int_eq_iff (pos a) (negsuc b) = ground arith
int_eq_iff (negsuc a) (pos b) = ground arith
int_eq_iff (negsuc a) (negsuc b) = ground arith

pub int_irrefl : (a : ℤ) → int_lt a a ≡ false
int_irrefl (pos a) = ground arith
int_irrefl (negsuc a) = ground arith

pub int_trans : (a b c : ℤ) → int_lt a b ≡ true → int_lt b c ≡ true → int_lt a c ≡ true
int_trans a b c h k = ground arith

pub int-total : (a b : ℤ) → int_lt a b ≡ false → int_lt b a ≡ false → a ≡ b
int-total a b h k = ground arith

instance abbrev pub int_has_eq : Eq ℤ
int_has_eq = record { beq = int_eq; beq_iff = int_eq_iff }

instance abbrev pub int_ord : Ord ℤ
int_ord = record {
  eq = int_has_eq;
  lt = int_lt;
  lt_irrefl = int_irrefl;
  lt_trans = int_trans;
  lt_total = int-total;
}
