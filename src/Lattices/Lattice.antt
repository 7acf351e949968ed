-- ===== src/Lattices/Lattice.antt =====
-- src/lattices/lattice.h: the interface of every lattice and the operators that it derives.
use lattice_flow.Base.{◌≡◌, Bool, true, not}

-- `Lattice<L, T>`: a class `L` with `get` and `join`, and the `operator==` of the type `T` that
-- `get` returns. `join` returns what the object holds after the call.
pub record Lattice {ℓ κ} (L : Type ℓ) (T : Type κ) : Type (ℓ ⊔ κ) where
  pub get : L → T
  pub join : L → L → L
  pub value_eq : T → T → Bool

module _ {ℓ κ} {L : Type ℓ} {T : Type κ} (𝓛 : Lattice L T) where
  open 𝓛 use {get, join, value_eq}

  -- `operator==`
  abbrev pub eq : L → L → Bool
  eq l r = value_eq (get l) (get r)

  -- `operator!=`
  abbrev pub ne : L → L → Bool
  ne l r = not (value_eq (get l) (get r))

  -- `operator<=`: the left operand is a copy.
  abbrev pub le : L → L → Bool
  le l r = value_eq (get (join l r)) (get r)

-- What makes a class a join semilattice, up to its own `operator==`.
pub record IsLattice {ℓ κ} {L : Type ℓ} {T : Type κ} (𝓛 : Lattice L T) : Type (ℓ ⊔ κ) where
  pub eq_refl : (a : L) → eq 𝓛 a a ≡ true
  pub eq_sym : (a b : L) → eq 𝓛 a b ≡ true → eq 𝓛 b a ≡ true
  pub eq_trans : (a b c : L) → eq 𝓛 a b ≡ true → eq 𝓛 b c ≡ true → eq 𝓛 a c ≡ true
  pub join_idem : (a : L) → eq 𝓛 (𝓛.join a a) a ≡ true
  pub join_comm : (a b : L) → eq 𝓛 (𝓛.join a b) (𝓛.join b a) ≡ true
  pub join_assoc : (a b c : L) → eq 𝓛 (𝓛.join (𝓛.join a b) c) (𝓛.join a (𝓛.join b c)) ≡ true
  pub join_cong :
      (a b c d : L) → eq 𝓛 a b ≡ true → eq 𝓛 c d ≡ true → eq 𝓛 (𝓛.join a c) (𝓛.join b d) ≡ true
