-- ===== src/Lattices/Array.antt =====
-- src/lattices/array_lattice.h.
use lattice_flow.Base.{ℕ, zero, suc, ◌≡◌, refl, Bool, true, ◌&&◌, and-left, and-right, and-intro}
use lattice_flow.Lattices.Lattice.{Lattice, IsLattice, eq}

-- `std::array<T, N>`
pub data Array {ℓ} (T : Type ℓ) : ℕ → Type ℓ where
  nil : Array T zero
  cons : {n : ℕ} → T → Array T n → Array T (suc n)

pub record ArrayLattice {ℓ} (T : Type ℓ) (n : ℕ) : Type ℓ where
  pub xs : Array T n

module _ {ℓ κ} {T : Type ℓ} {U : Type κ} (𝓛 : Lattice T U) where
  -- The loop of `join` over the indices.
  unfoldable pub join_each : {n : ℕ} → Array T n → Array T n → Array T n
  join_each nil nil = nil
  join_each (cons x xs) (cons y ys) = cons (𝓛.join x y) (join_each xs ys)

  unfoldable pub join : {n : ℕ} → ArrayLattice T n → ArrayLattice T n → ArrayLattice T n
  unfolding join_each
  join s l = record { xs = join_each s.xs l.xs }

  unfoldable pub array_eq : {n : ℕ} → Array T n → Array T n → Bool
  array_eq nil nil = true
  array_eq (cons x xs) (cons y ys) = eq 𝓛 x y && array_eq xs ys

  abbrev pub array_lattice : (n : ℕ) → Lattice (ArrayLattice T n) (Array T n)
  array_lattice n = record { get = λ s. s.xs; join = join; value_eq = array_eq }

module _ {ℓ κ} {T : Type ℓ} {U : Type κ} (𝓛 : Lattice T U) (𝓵 : IsLattice 𝓛) where
  each_refl : {n : ℕ} (a : Array T n) → array_eq 𝓛 a a ≡ true
  unfolding array_eq
  each_refl nil = refl
  each_refl (cons x xs) = and-intro _ _ (𝓵.eq_refl x) (each_refl xs)

  each_sym : {n : ℕ} (a b : Array T n) → array_eq 𝓛 a b ≡ true → array_eq 𝓛 b a ≡ true
  unfolding array_eq
  each_sym nil nil h = refl
  each_sym (cons x xs) (cons y ys) h =
      and-intro _ _ (𝓵.eq_sym x y (and-left _ _ h)) (each_sym xs ys (and-right _ _ h))

  each_trans :
      {n : ℕ} (a b c : Array T n)
      → array_eq 𝓛 a b ≡ true
      → array_eq 𝓛 b c ≡ true
      → array_eq 𝓛 a c ≡ true
  unfolding array_eq
  each_trans nil nil nil h k = refl
  each_trans (cons x xs) (cons y ys) (cons z zs) h k =
      and-intro _ _ (𝓵.eq_trans x y z (and-left _ _ h) (and-left _ _ k))
        (each_trans xs ys zs (and-right _ _ h) (and-right _ _ k))

  each_idem : {n : ℕ} (a : Array T n) → array_eq 𝓛 (join_each 𝓛 a a) a ≡ true
  unfolding array_eq join_each
  each_idem nil = refl
  each_idem (cons x xs) = and-intro _ _ (𝓵.join_idem x) (each_idem xs)

  each_comm : {n : ℕ} (a b : Array T n) → array_eq 𝓛 (join_each 𝓛 a b) (join_each 𝓛 b a) ≡ true
  unfolding array_eq join_each
  each_comm nil nil = refl
  each_comm (cons x xs) (cons y ys) = and-intro _ _ (𝓵.join_comm x y) (each_comm xs ys)

  each_assoc :
      {n : ℕ} (a b c : Array T n)
      → array_eq 𝓛 (join_each 𝓛 (join_each 𝓛 a b) c) (join_each 𝓛 a (join_each 𝓛 b c)) ≡ true
  unfolding array_eq join_each
  each_assoc nil nil nil = refl
  each_assoc (cons x xs) (cons y ys) (cons z zs) =
      and-intro _ _ (𝓵.join_assoc x y z) (each_assoc xs ys zs)

  each_cong :
      {n : ℕ} (a b c d : Array T n)
      → array_eq 𝓛 a b ≡ true
      → array_eq 𝓛 c d ≡ true
      → array_eq 𝓛 (join_each 𝓛 a c) (join_each 𝓛 b d) ≡ true
  unfolding array_eq join_each
  each_cong nil nil nil nil h k = refl
  each_cong (cons x xs) (cons y ys) (cons z zs) (cons w ws) h k =
      and-intro _ _ (𝓵.join_cong x y z w (and-left _ _ h) (and-left _ _ k))
        (each_cong xs ys zs ws (and-right _ _ h) (and-right _ _ k))

  -- ArrayLattice over a lattice is a join semilattice at every size: up to `==`, which is an
  -- equivalence, `join` is idempotent, commutative and associative, and it respects `==`.
  pub array_lattice-IsLattice : (n : ℕ) → IsLattice (array_lattice 𝓛 n)
  unfolding join
  array_lattice-IsLattice n = record {
    eq_refl = λ a. each_refl a.xs;
    eq_sym = λ a b. each_sym a.xs b.xs;
    eq_trans = λ a b c. each_trans a.xs b.xs c.xs;
    join_idem = λ a. each_idem a.xs;
    join_comm = λ a b. each_comm a.xs b.xs;
    join_assoc = λ a b c. each_assoc a.xs b.xs c.xs;
    join_cong = λ a b c d. each_cong a.xs b.xs c.xs d.xs;
  }
