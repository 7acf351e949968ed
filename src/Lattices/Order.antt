-- ===== src/Lattices/Order.antt =====
-- The order that src/lattices/lattice.h derives from `join`.
use lattice_flow.Base.{◌≡◌, true, ◌&&◌, Bool-ext, and-left, and-right, and-intro}
use lattice_flow.Lattices.Lattice.{Lattice, IsLattice, eq, le}

module _ {ℓ κ} {L : Type ℓ} {T : Type κ} (𝓛 : Lattice L T) (𝓵 : IsLattice 𝓛) where
  open 𝓛 use {join}
  open 𝓵 use {eq_refl, eq_sym, eq_trans, join_idem, join_comm, join_assoc, join_cong}

  pub join_eq_left : (a b c : L) → eq 𝓛 a b ≡ true → eq 𝓛 (join a c) (join b c) ≡ true
  join_eq_left a b c h = join_cong a b c c h (eq_refl c)

  pub join_eq_right : (a b c : L) → eq 𝓛 b c ≡ true → eq 𝓛 (join a b) (join a c) ≡ true
  join_eq_right a b c h = join_cong a a b c (eq_refl a) h

  pub le_of_eq : (a b : L) → eq 𝓛 a b ≡ true → le 𝓛 a b ≡ true
  le_of_eq a b h = eq_trans (join a b) (join b b) b (join_eq_left a b b h) (join_idem b)

  pub le_refl : (a : L) → le 𝓛 a a ≡ true
  le_refl a = join_idem a

  -- For a class that obeys the lattice laws, `operator<=` is transitive.
  pub le_trans : (a b c : L) → le 𝓛 a b ≡ true → le 𝓛 b c ≡ true → le 𝓛 a c ≡ true
  le_trans a b c h k =
      eq_trans (join a c) (join a (join b c)) c
        (join_eq_right a c (join b c) (eq_sym (join b c) c k))
        (eq_trans (join a (join b c)) (join (join a b) c) c
          (eq_sym (join (join a b) c) (join a (join b c)) (join_assoc a b c))
          (eq_trans (join (join a b) c) (join b c) c (join_eq_left (join a b) b c h) k))

  pub le_antisym : (a b : L) → le 𝓛 a b ≡ true → le 𝓛 b a ≡ true → eq 𝓛 a b ≡ true
  le_antisym a b h k =
      eq_trans a (join b a) b (eq_sym (join b a) a k)
        (eq_trans (join b a) (join a b) b (join_comm b a) h)

  pub le-join_left : (a b : L) → le 𝓛 a (join a b) ≡ true
  le-join_left a b =
      eq_trans (join a (join a b)) (join (join a a) b) (join a b)
        (eq_sym (join (join a a) b) (join a (join a b)) (join_assoc a a b))
        (join_eq_left (join a a) a b (join_idem a))

  pub le-join_right : (a b : L) → le 𝓛 b (join a b) ≡ true
  le-join_right a b =
      le_trans b (join b a) (join a b) (le-join_left b a)
        (le_of_eq (join b a) (join a b) (join_comm b a))

  pub join-le : (a b c : L) → le 𝓛 a c ≡ true → le 𝓛 b c ≡ true → le 𝓛 (join a b) c ≡ true
  join-le a b c h k =
      eq_trans (join (join a b) c) (join a (join b c)) c (join_assoc a b c)
        (eq_trans (join a (join b c)) (join a c) c (join_eq_right a (join b c) c k) h)

  -- For a class that obeys the lattice laws, `operator==` holds exactly when `operator<=` holds both
  -- ways.
  pub eq-le-le : (a b : L) → eq 𝓛 a b ≡ (le 𝓛 a b && le 𝓛 b a)
  eq-le-le a b =
      Bool-ext (eq 𝓛 a b) (le 𝓛 a b && le 𝓛 b a)
        (λ h. and-intro _ _ (le_of_eq a b h) (le_of_eq b a (eq_sym a b h)))
        (λ h. le_antisym a b (and-left _ _ h) (and-right _ _ h))

  -- For a class that obeys the lattice laws, `join` computes the least upper bound: the join of two
  -- values is below a third exactly when both of them are.
  pub le-join_least : (a b c : L) → le 𝓛 (join a b) c ≡ (le 𝓛 a c && le 𝓛 b c)
  le-join_least a b c =
      Bool-ext (le 𝓛 (join a b) c) (le 𝓛 a c && le 𝓛 b c)
        (λ h.
          and-intro _ _ (le_trans a (join a b) c (le-join_left a b) h)
            (le_trans b (join a b) c (le-join_right a b) h))
        (λ h. join-le a b c (and-left _ _ h) (and-right _ _ h))
