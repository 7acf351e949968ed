-- ===== src/Std/Lexicographic.antt =====
-- `std::lexicographical_compare`, and the order of `std::string` and of byte vectors that it is.
use lattice_flow.Base.{
  ◌≡◌, refl, Bool, true, false, ◌&&◌, ◌↔◌, List, [], ◌∷◌, arith, Eq, Ord, if◌then◌else◌, ℕ, ltb,
  nat_ord,
}

-- Over two ranges; a proper prefix comes first.
unfoldable pub lexicographical_compare {ℓ} : {A : Type ℓ} → (A → A → Bool) → List A → List A → Bool
lexicographical_compare lt xs [] = false
lexicographical_compare lt [] (y ∷ ys) = true
lexicographical_compare lt (x ∷ xs) (y ∷ ys) =
    let rest = lexicographical_compare lt xs ys in
    if lt x y then true else if lt y x then false else rest

module _ {ℓ} {A : Type ℓ} ⦃o : Ord A⦄ where
  abbrev pub list_beq : List A → List A → Bool
  list_beq [] [] = true
  list_beq [] (y ∷ ys) = false
  list_beq (x ∷ xs) [] = false
  list_beq (x ∷ xs) (y ∷ ys) = o.eq.beq x y && list_beq xs ys

  pub list_beq_iff : (xs ys : List A) → (list_beq xs ys ≡ true) ↔ (xs ≡ ys)
  list_beq_iff [] [] = ground arith
  list_beq_iff [] (y ∷ ys) = ground arith
  list_beq_iff (x ∷ xs) [] = ground arith
  list_beq_iff (x ∷ xs) (y ∷ ys) = ground (arith, o.eq.beq_iff x y, list_beq_iff xs ys)

  pub lexicographic_irrefl : (xs : List A) → lexicographical_compare o.lt xs xs ≡ false
  unfolding lexicographical_compare
  lexicographic_irrefl [] = refl
  lexicographic_irrefl (x ∷ xs) = ground (arith, o.lt_irrefl x, lexicographic_irrefl xs)

  pub lexicographic_trans :
      (xs ys zs : List A)
      → lexicographical_compare o.lt xs ys ≡ true
      → lexicographical_compare o.lt ys zs ≡ true
      → lexicographical_compare o.lt xs zs ≡ true
  unfolding lexicographical_compare
  lexicographic_trans [] [] zs h k = cc
  lexicographic_trans (x ∷ xs) [] zs h k = cc
  lexicographic_trans [] (y ∷ ys) [] h k = cc
  lexicographic_trans [] (y ∷ ys) (z ∷ zs) h k = refl
  lexicographic_trans (x ∷ xs) (y ∷ ys) [] h k = cc
  lexicographic_trans (x ∷ xs) (y ∷ ys) (z ∷ zs) h k = ground (
    arith,
    o.lt_trans x y z,
    o.lt_trans y x z,
    o.lt_trans y z x,
    o.lt_trans z x y,
    o.lt_trans z y x,
    o.lt_trans x z y,
    o.lt_total x y,
    o.lt_total y z,
    o.lt_irrefl x,
    lexicographic_trans xs ys zs,
  )

  pub lexicographic-total :
      (xs ys : List A)
      → lexicographical_compare o.lt xs ys ≡ false
      → lexicographical_compare o.lt ys xs ≡ false
      → xs ≡ ys
  unfolding lexicographical_compare
  lexicographic-total [] [] h k = refl
  lexicographic-total [] (y ∷ ys) h k = cc
  lexicographic-total (x ∷ xs) [] h k = cc
  lexicographic-total (x ∷ xs) (y ∷ ys) h k =
      ground (arith, o.lt_total x y, o.lt_trans x y x, o.lt_irrefl x, lexicographic-total xs ys)

-- A string is its bytes.
abbrev pub Bytes : Type 0
Bytes = List ℕ

instance unfoldable pub bytes_eq : Eq Bytes
bytes_eq = record { beq = list_beq; beq_iff = list_beq_iff }

instance unfoldable pub bytes_ord : Ord Bytes
bytes_ord = record {
  eq = bytes_eq;
  lt = lexicographical_compare ltb;
  lt_irrefl = lexicographic_irrefl;
  lt_trans = lexicographic_trans;
  lt_total = lexicographic-total;
}
