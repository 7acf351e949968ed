-- ===== src/Lattices/Vector/Laws.antt =====
-- VectorLattice joins position by position and keeps the longer tail.
use lattice_flow.Base.{
  ℕ, zero, suc, ◌≡◌, refl, true, List, [], ◌∷◌, arith, get_elem?, and-left, and-right, and-intro,
}
use lattice_flow.Lattices.Lattice.{Lattice, IsLattice}
use lattice_flow.Lattices.Vector.{
  VectorLattice, join_prefix, extend, join, vector_eq, vector_lattice,
}
use lattice_flow.Lattices.MapLattice.Laws.{join_option}

module _ {ℓ κ} {T : Type ℓ} {U : Type κ} (𝓛 : Lattice T U) where
  -- One pass over both vectors.
  zip_join : List T → List T → List T
  zip_join [] ys = ys
  zip_join (x ∷ xs) [] = x ∷ xs
  zip_join (x ∷ xs) (y ∷ ys) = 𝓛.join x y ∷ zip_join xs ys

  extend-zip_join : (xs ys : List T) → extend 𝓛 (join_prefix 𝓛 xs ys) ys ≡ zip_join xs ys
  unfolding extend join_prefix zip_join
  extend-zip_join [] [] = refl
  extend-zip_join [] (y ∷ ys) = ground arith
  extend-zip_join (x ∷ xs) [] = ground arith
  extend-zip_join (x ∷ xs) (y ∷ ys) = ground (arith, extend-zip_join xs ys)

  get-zip_join :
      (xs ys : List T) (i : ℕ)
      → get_elem? (zip_join xs ys) i ≡ join_option 𝓛.join (get_elem? xs i) (get_elem? ys i)
  unfolding zip_join
  get-zip_join [] ys i = refl
  get-zip_join (x ∷ xs) [] zero = refl
  get-zip_join (x ∷ xs) [] (suc i) = ground arith
  get-zip_join (x ∷ xs) (y ∷ ys) zero = refl
  get-zip_join (x ∷ xs) (y ∷ ys) (suc i) = get-zip_join xs ys i

  -- At each index the join of two vectors holds the join of their elements, and where only one of
  -- them is long enough, its element.
  pub vector_get-join :
      (s l : VectorLattice T) (i : ℕ)
      → get_elem? (join 𝓛 s l).xs i ≡ join_option 𝓛.join (get_elem? s.xs i) (get_elem? l.xs i)
  unfolding join
  vector_get-join s l i = rw (extend-zip_join s.xs l.xs) (get-zip_join s.xs l.xs i)

module _ {ℓ κ} {T : Type ℓ} {U : Type κ} (𝓛 : Lattice T U) (𝓵 : IsLattice 𝓛) where
  vector_refl : (a : List T) → vector_eq 𝓛 a a ≡ true
  unfolding vector_eq
  vector_refl [] = refl
  vector_refl (x ∷ xs) = and-intro _ _ (𝓵.eq_refl x) (vector_refl xs)

  vector_sym : (a b : List T) → vector_eq 𝓛 a b ≡ true → vector_eq 𝓛 b a ≡ true
  unfolding vector_eq
  vector_sym [] [] h = h
  vector_sym [] (y ∷ ys) h = h
  vector_sym (x ∷ xs) [] h = h
  vector_sym (x ∷ xs) (y ∷ ys) h =
      and-intro _ _ (𝓵.eq_sym x y (and-left _ _ h)) (vector_sym xs ys (and-right _ _ h))

  vector_trans :
      (a b c : List T) → vector_eq 𝓛 a b ≡ true → vector_eq 𝓛 b c ≡ true → vector_eq 𝓛 a c ≡ true
  unfolding vector_eq
  vector_trans [] [] c h k = k
  vector_trans [] (y ∷ ys) c h k = cc
  vector_trans (x ∷ xs) [] c h k = cc
  vector_trans (x ∷ xs) (y ∷ ys) [] h k = cc
  vector_trans (x ∷ xs) (y ∷ ys) (z ∷ zs) h k =
      and-intro _ _ (𝓵.eq_trans x y z (and-left _ _ h) (and-left _ _ k))
        (vector_trans xs ys zs (and-right _ _ h) (and-right _ _ k))

  zip_idem : (a : List T) → vector_eq 𝓛 (zip_join 𝓛 a a) a ≡ true
  unfolding vector_eq zip_join
  zip_idem [] = refl
  zip_idem (x ∷ xs) = and-intro _ _ (𝓵.join_idem x) (zip_idem xs)

  zip_comm : (a b : List T) → vector_eq 𝓛 (zip_join 𝓛 a b) (zip_join 𝓛 b a) ≡ true
  unfolding vector_eq zip_join
  zip_comm [] [] = refl
  zip_comm [] (y ∷ ys) = vector_refl (y ∷ ys)
  zip_comm (x ∷ xs) [] = vector_refl (x ∷ xs)
  zip_comm (x ∷ xs) (y ∷ ys) = and-intro _ _ (𝓵.join_comm x y) (zip_comm xs ys)

  zip_assoc :
      (a b c : List T)
      → vector_eq 𝓛 (zip_join 𝓛 (zip_join 𝓛 a b) c) (zip_join 𝓛 a (zip_join 𝓛 b c)) ≡ true
  unfolding vector_eq zip_join
  zip_assoc [] b c = vector_refl (zip_join 𝓛 b c)
  zip_assoc (x ∷ xs) [] c = vector_refl (zip_join 𝓛 (x ∷ xs) c)
  zip_assoc (x ∷ xs) (y ∷ ys) [] = vector_refl (𝓛.join x y ∷ zip_join 𝓛 xs ys)
  zip_assoc (x ∷ xs) (y ∷ ys) (z ∷ zs) = and-intro _ _ (𝓵.join_assoc x y z) (zip_assoc xs ys zs)

  zip_cong :
      (a b c d : List T)
      → vector_eq 𝓛 a b ≡ true
      → vector_eq 𝓛 c d ≡ true
      → vector_eq 𝓛 (zip_join 𝓛 a c) (zip_join 𝓛 b d) ≡ true
  unfolding vector_eq zip_join
  zip_cong [] [] c d h k = k
  zip_cong [] (y ∷ ys) c d h k = cc
  zip_cong (x ∷ xs) [] c d h k = cc
  zip_cong (x ∷ xs) (y ∷ ys) [] [] h k = h
  zip_cong (x ∷ xs) (y ∷ ys) [] (w ∷ ws) h k = cc
  zip_cong (x ∷ xs) (y ∷ ys) (z ∷ zs) [] h k = cc
  zip_cong (x ∷ xs) (y ∷ ys) (z ∷ zs) (w ∷ ws) h k =
      and-intro _ _ (𝓵.join_cong x y z w (and-left _ _ h) (and-left _ _ k))
        (zip_cong xs ys zs ws (and-right _ _ h) (and-right _ _ k))

  join_eq_zip : (s l : VectorLattice T) → join 𝓛 s l ≡ record { xs = zip_join 𝓛 s.xs l.xs }
  unfolding join
  join_eq_zip s l = λ i. record { xs = extend-zip_join 𝓛 s.xs l.xs i }

  -- VectorLattice over a lattice is a join semilattice: up to `==`, which is an equivalence, `join`
  -- is idempotent, commutative and associative, and it respects `==`.
  pub vector_lattice-IsLattice : IsLattice (vector_lattice 𝓛)
  vector_lattice-IsLattice = record {
    eq_refl = λ a. vector_refl a.xs;
    eq_sym = λ a b. vector_sym a.xs b.xs;
    eq_trans = λ a b c. vector_trans a.xs b.xs c.xs;
    join_idem = λ a. rw (join_eq_zip a a) (zip_idem a.xs);
    join_comm = λ a b. rw (join_eq_zip a b, join_eq_zip b a) (zip_comm a.xs b.xs);
    join_assoc = λ a b c.
        rw (join_eq_zip a b, join_eq_zip b c, join_eq_zip a _, join_eq_zip _ c)
          (zip_assoc a.xs b.xs c.xs);
    join_cong =
        λ a b c d h k. rw (join_eq_zip a c, join_eq_zip b d) (zip_cong a.xs b.xs c.xs d.xs h k);
  }
