-- ===== src/Base/Classes.antt =====
-- The operators that the templates ask of their type arguments: `==` and `<`.
use mathlib.Core.Path.{◌≡◌, refl, sym, ◌∙◌}
use mathlib.Core.Logic.{◌↔◌}
use mathlib.Core.Bool.{Bool, true, false}
use Prim.Native.Nat.{ℕ}
use native.Mathlib.Omega.{arith}
use lattice_flow.Base.Tests.{ltb, nat_beq, nat_beq_iff}

-- `operator==` that tells values apart exactly.
pub record Eq {ℓ} (A : Type ℓ) : Type ℓ where
  pub beq : A → A → Bool
  pub beq_iff : (x y : A) → (beq x y ≡ true) ↔ (x ≡ y)

-- `operator<` and `operator==` of a type with a strict total order.
pub record Ord {ℓ} (A : Type ℓ) : Type ℓ where
  pub eq : Eq A
  pub lt : A → A → Bool
  pub lt_irrefl : (a : A) → lt a a ≡ false
  pub lt_trans : (a b c : A) → lt a b ≡ true → lt b c ≡ true → lt a c ≡ true
  pub lt_total : (a b : A) → lt a b ≡ false → lt b a ≡ false → a ≡ b

instance abbrev pub nat_eq : Eq ℕ
nat_eq = record { beq = nat_beq; beq_iff = nat_beq_iff }

pub nat_irrefl : (a : ℕ) → ltb a a ≡ false
nat_irrefl a = ground arith

pub nat_trans : (a b c : ℕ) → ltb a b ≡ true → ltb b c ≡ true → ltb a c ≡ true
nat_trans a b c h k = ground arith

pub nat-total : (a b : ℕ) → ltb a b ≡ false → ltb b a ≡ false → a ≡ b
nat-total a b h k = ground arith

instance abbrev pub nat_ord : Ord ℕ
nat_ord = record {
  eq = nat_eq;
  lt = ltb;
  lt_irrefl = nat_irrefl;
  lt_trans = nat_trans;
  lt_total = nat-total;
}

infix 50 ◌==◌
abbrev pub ◌==◌ {ℓ} : {A : Type ℓ} ⦃e : Eq A⦄ → A → A → Bool
◌==◌ ⦃e⦄ = e.beq

module _ {ℓ} {A : Type ℓ} ⦃e : Eq A⦄ where
  pub beq_refl : (a : A) → (a == a) ≡ true
  beq_refl a = (e.beq_iff a a).1 refl

  pub beq_sym : (a b : A) → (a == b) ≡ true → (b == a) ≡ true
  beq_sym a b h = (e.beq_iff b a).1 (sym ((e.beq_iff a b).0 h))

  pub beq_trans : (a b c : A) → (a == b) ≡ true → (b == c) ≡ true → (a == c) ≡ true
  beq_trans a b c h k = (e.beq_iff a c).1 ((e.beq_iff a b).0 h ∙ (e.beq_iff b c).0 k)
