-- ===== src/Std/UnorderedSet.antt =====
-- `std::unordered_set`: its elements once each, in the order in which iteration meets them.
use lattice_flow.Base.{
  ◌≡◌, refl, Bool, true, false, ◌&&◌, ◌||◌, List, [], ◌∷◌, arith, Eq, ◌==◌, if◌then◌else◌, ◌↔◌,
  Bool-ext, and-left, and-right, beq_refl, ◌++◌,
}

abbrev pub UnorderedSet {ℓ} : Type ℓ → Type ℓ
UnorderedSet T = List T

module _ {ℓ} {T : Type ℓ} ⦃e : Eq T⦄ where
  -- `count(x) > 0`
  unfoldable pub contains : T → UnorderedSet T → Bool
  contains x [] = false
  contains x (y ∷ ys) = y == x || contains x ys

  -- `insert(x)`: nothing happens to a set that holds the element.
  unfoldable pub insert : T → UnorderedSet T → UnorderedSet T
  unfolding contains
  insert x ys = if contains x ys then ys else ys ++ x ∷ []

  -- `insert(begin, end)`
  unfoldable pub insert_all : List T → UnorderedSet T → UnorderedSet T
  unfolding insert
  insert_all [] ys = ys
  insert_all (x ∷ xs) ys = insert_all xs (insert x ys)

  unfoldable pub subset : List T → UnorderedSet T → Bool
  unfolding contains
  subset [] ys = true
  subset (x ∷ xs) ys = contains x ys && subset xs ys

  -- `operator==`: the same elements, whatever the order of iteration.
  unfoldable pub set_eq : UnorderedSet T → UnorderedSet T → Bool
  unfolding subset
  set_eq xs ys = subset xs ys && subset ys xs

  -- Each element is held once.
  abbrev pub IsDistinct : UnorderedSet T → Type 0
  IsDistinct [] = Unit
  IsDistinct (x ∷ xs) = (contains x xs ≡ false) × IsDistinct xs

  pub contains-append :
      (x : T) (xs ys : List T) → contains x (xs ++ ys) ≡ (contains x xs || contains x ys)
  unfolding contains
  contains-append x [] ys = refl
  contains-append x (y ∷ xs) ys = ground (arith, contains-append x xs ys)

  pub contains-insert :
      (x y : T) (ys : UnorderedSet T) → contains x (insert y ys) ≡ (y == x || contains x ys)
  unfolding contains insert
  contains-insert x y ys = ground (arith, contains-append x ys (y ∷ []), e.beq_iff y x)

  pub contains-insert_all :
      (x : T) (xs : List T) (ys : UnorderedSet T)
      → contains x (insert_all xs ys) ≡ (contains x ys || contains x xs)
  unfolding insert_all contains
  contains-insert_all x [] ys = ground arith
  contains-insert_all x (y ∷ xs) ys =
      ground (arith, contains-insert_all x xs (insert y ys), contains-insert x y ys)

  IsDistinct-snoc :
      (x : T) (ys : UnorderedSet T)
      → contains x ys ≡ false
      → IsDistinct ys
      → IsDistinct (ys ++ x ∷ [])
  unfolding contains
  IsDistinct-snoc x [] h d = (refl, tt)
  IsDistinct-snoc x (y ∷ ys) h d = (
    ground (arith, contains-append y ys (x ∷ []), e.beq_iff y x, e.beq_iff x y),
    IsDistinct-snoc x ys (ground arith) d.1,
  )

  pub insert-IsDistinct : (x : T) (ys : UnorderedSet T) → IsDistinct ys → IsDistinct (insert x ys)
  unfolding insert
  insert-IsDistinct x ys d = ground (arith, IsDistinct-snoc x ys)

  pub insert_all-IsDistinct :
      (xs : List T) (ys : UnorderedSet T) → IsDistinct ys → IsDistinct (insert_all xs ys)
  unfolding insert_all
  insert_all-IsDistinct [] ys d = d
  insert_all-IsDistinct (x ∷ xs) ys d =
      insert_all-IsDistinct xs (insert x ys) (insert-IsDistinct x ys d)

  subset_sound :
      (xs ys : List T) → subset xs ys ≡ true → (x : T) → contains x xs ≡ true → contains x ys ≡ true
  unfolding subset contains
  subset_sound [] ys h x k = cc
  subset_sound (z ∷ xs) ys h x k =
      ground (arith, e.beq_iff z x, subset_sound xs ys (ground arith) x)

  subset_complete :
      (xs ys : List T)
      → ((x : T) → contains x xs ≡ true → contains x ys ≡ true)
      → subset xs ys ≡ true
  unfolding subset contains
  subset_complete [] ys h = refl
  subset_complete (z ∷ xs) ys h =
      ground (arith, beq_refl z, h z, subset_complete xs ys (λ x k. h x (ground arith)))

  -- Sets are `==` exactly when they hold the same elements.
  pub set_eq_iff :
      (xs ys : UnorderedSet T) → (set_eq xs ys ≡ true) ↔ ((x : T) → contains x xs ≡ contains x ys)
  unfolding set_eq
  set_eq_iff xs ys = (
    λ h x.
        Bool-ext (contains x xs) (contains x ys) (subset_sound xs ys (and-left _ _ h) x)
          (subset_sound ys xs (and-right _ _ h) x),
    λ h. ground (
      arith,
      subset_complete xs ys (λ x k. ground (arith, h x)),
      subset_complete ys xs (λ x k. ground (arith, h x)),
    ),
  )
