-- ===== src/Std/Assoc.antt =====
-- Association lists: the entries that the models of `std::map` and `std::unordered_map` share.
use lattice_flow.Base.{
  ◌≡◌, refl, Bool, true, false, Option, none, some, List, [], ◌∷◌, arith, Eq, ◌==◌, if◌then◌else◌,
  map_option,
}

abbrev pub Assoc {ℓ κ} : Type ℓ → Type κ → Type (ℓ ⊔ κ)
Assoc K V = List (K × V)

module _ {ℓ κ} {K : Type ℓ} {V : Type κ} ⦃e : Eq K⦄ where
  unfoldable pub find : K → Assoc K V → Option V
  find k [] = none
  find k ((j, v) ∷ m) = if j == k then some v else find k m

  -- `count(k)`: a map holds a key once or not at all.
  abbrev pub has : K → Assoc K V → Bool
  has k m = elim (find k m) [ none ↦ false | some _ ↦ true ]

  abbrev pub keys : Assoc K V → List K
  keys [] = []
  keys ((k, _) ∷ m) = k ∷ keys m

  -- A new entry. Where iteration will meet it is not specified; the model puts it last.
  unfoldable pub add : K → V → Assoc K V → Assoc K V
  add k v [] = (k, v) ∷ []
  add k v ((j, w) ∷ m) = (j, w) ∷ add k v m

  -- A write through the reference to the value of a key that is there.
  unfoldable pub modify : K → (V → V) → Assoc K V → Assoc K V
  modify k f [] = []
  modify k f ((j, w) ∷ m) =
      let rest = modify k f m in if j == k then (j, f w) ∷ m else (j, w) ∷ rest

  -- `m[k] = v`
  unfoldable pub assign : K → V → Assoc K V → Assoc K V
  unfolding find add modify
  assign k v m = if has k m then modify k (λ _. v) m else add k v m

  unfoldable pub erase : K → Assoc K V → Assoc K V
  erase k [] = []
  erase k ((j, w) ∷ m) = let rest = erase k m in if j == k then rest else (j, w) ∷ rest

  pub find-add :
      (k j : K) (v : V) (m : Assoc K V)
      → find k m ≡ none
      → find j (add k v m) ≡ (if k == j then some v else find j m)
  unfolding find add
  find-add k j v [] h = refl
  find-add k j v ((i, w) ∷ m) h =
      ground (arith, e.beq_iff i k, e.beq_iff i j, e.beq_iff k j, find-add k j v m)

  pub find-modify :
      (k j : K) (f : V → V) (m : Assoc K V)
      → find j (modify k f m) ≡ (if k == j then map_option f (find j m) else find j m)
  unfolding find modify
  find-modify k j f [] = ground arith
  find-modify k j f ((i, w) ∷ m) =
      ground (arith, e.beq_iff i k, e.beq_iff i j, e.beq_iff k j, find-modify k j f m)

  pub find-assign :
      (k j : K) (v : V) (m : Assoc K V)
      → find j (assign k v m) ≡ (if k == j then some v else find j m)
  unfolding assign
  find-assign k j v m = ground (arith, find-modify k j (λ _. v) m, find-add k j v m, e.beq_iff k j)

  pub find-erase :
      (k j : K) (m : Assoc K V) → find j (erase k m) ≡ (if k == j then none else find j m)
  unfolding find erase
  find-erase k j [] = ground arith
  find-erase k j ((i, w) ∷ m) =
      ground (arith, e.beq_iff i k, e.beq_iff i j, e.beq_iff k j, find-erase k j m)
