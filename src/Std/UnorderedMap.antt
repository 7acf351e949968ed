-- ===== src/Std/UnorderedMap.antt =====
-- `std::unordered_map`: entries with distinct keys, in the order in which iteration meets them.
use lattice_flow.Base.{
  ◌≡◌, refl, Bool, true, false, ◌&&◌, List, [], ◌∷◌, arith, Eq, ◌==◌, if◌then◌else◌, ◌↔◌, Option,
  none, some, and-left, and-right, Option-cases, Bool-cases, inl, inr,
}
use lattice_flow.Std.Assoc.{Assoc, find, has, keys, add, modify, assign, find-add, find-modify}

module _ {ℓ κ} {K : Type ℓ} {V : Type κ} ⦃e : Eq K⦄ where
  -- No key stands in two entries.
  abbrev pub IsDistinct : Assoc K V → Type κ
  IsDistinct [] = Unit
  IsDistinct ((k, v) ∷ m) = (find k m ≡ none) × IsDistinct m

  pub add-IsDistinct :
      (k : K) (v : V) (m : Assoc K V) → find k m ≡ none → IsDistinct m → IsDistinct (add k v m)
  unfolding add find
  add-IsDistinct k v [] h d = (refl, tt)
  add-IsDistinct k v ((j, w) ∷ m) h d = (
    ground (arith, find-add k j v m, e.beq_iff j k, e.beq_iff k j),
    add-IsDistinct k v m (ground arith) d.1,
  )

  pub modify-IsDistinct :
      (k : K) (f : V → V) (m : Assoc K V) → IsDistinct m → IsDistinct (modify k f m)
  unfolding modify find
  modify-IsDistinct k f [] d = tt
  modify-IsDistinct k f ((j, w) ∷ m) d =
      ground (arith, modify-IsDistinct k f m d.1, find-modify k j f m, e.beq_iff j k, e.beq_iff k j)

  assign_entry-IsDistinct :
      (k : K) (v : V) (m : Assoc K V) (b : Bool)
      → has k m ≡ b
      → IsDistinct m
      → IsDistinct (if b then modify k (λ _. v) m else add k v m)
  assign_entry-IsDistinct k v m true h d = modify-IsDistinct k (λ _. v) m d
  assign_entry-IsDistinct k v m false h d = add-IsDistinct k v m (ground arith) d

  pub assign-IsDistinct : (k : K) (v : V) (m : Assoc K V) → IsDistinct m → IsDistinct (assign k v m)
  unfolding assign
  assign-IsDistinct k v m d = assign_entry-IsDistinct k v m (has k m) refl d

pub record UnorderedMap {ℓ κ} (K : Type ℓ) ⦃e : Eq K⦄ (V : Type κ) : Type (ℓ ⊔ κ) where
  pub entries : Assoc K V
  pub distinct : IsDistinct entries

module _ {ℓ κ} {K : Type ℓ} {V : Type κ} ⦃e : Eq K⦄ where
  unfoldable pub empty : UnorderedMap K V
  empty = record { entries = []; distinct = tt }

  insert_entry-IsDistinct :
      (k : K) (v : V) (m : Assoc K V) (b : Bool)
      → has k m ≡ b
      → IsDistinct m
      → IsDistinct (if b then m else add k v m)
  insert_entry-IsDistinct k v m true h d = d
  insert_entry-IsDistinct k v m false h d = add-IsDistinct k v m (ground arith) d

  -- `insert({k, v})`: nothing happens to a map that holds the key.
  unfoldable pub insert : K → V → UnorderedMap K V → UnorderedMap K V
  unfolding insert_entry-IsDistinct
  insert k v m = record {
    entries = if has k m.entries then m.entries else add k v m.entries;
    distinct = insert_entry-IsDistinct k v m.entries (has k m.entries) refl m.distinct;
  }

  -- A write through `m[k]`, of a key that the map holds.
  unfoldable pub update : K → (V → V) → UnorderedMap K V → UnorderedMap K V
  update k f m = record {
    entries = modify k f m.entries;
    distinct = modify-IsDistinct k f m.entries m.distinct;
  }

-- Both absent, or both there and `==`.
abbrev pub option_eq {κ} : {V : Type κ} → (V → V → Bool) → Option V → Option V → Bool
option_eq value_eq none none = true
option_eq value_eq (some v) (some w) = value_eq v w
option_eq value_eq none (some w) = false
option_eq value_eq (some v) none = false

module _ {ℓ κ} {K : Type ℓ} {V : Type κ} ⦃e : Eq K⦄ (value_eq : V → V → Bool) where
  -- Two maps agree at each of the keys.
  unfoldable pub agree_at : List K → Assoc K V → Assoc K V → Bool
  agree_at [] m n = true
  agree_at (k ∷ ks) m n = option_eq value_eq (find k m) (find k n) && agree_at ks m n

  -- `operator==`: the same keys with `==` values, whatever the order of iteration.
  unfoldable pub map_eq : Assoc K V → Assoc K V → Bool
  unfolding agree_at
  map_eq m n = agree_at (keys m) m n && agree_at (keys n) m n

  agree_at_complete :
      (ks : List K) (m n : Assoc K V)
      → ((k : K) → option_eq value_eq (find k m) (find k n) ≡ true)
      → agree_at ks m n ≡ true
  unfolding agree_at
  agree_at_complete [] m n h = refl
  agree_at_complete (k ∷ ks) m n h = rw (h k) (agree_at_complete ks m n h)

  agree_at_sound :
      (l m n : Assoc K V) (j : K) (v : V)
      → agree_at (keys l) m n ≡ true
      → find j l ≡ some v
      → option_eq value_eq (find j m) (find j n) ≡ true
  unfolding agree_at find
  agree_at_sound [] m n j v h k = cc
  agree_at_sound ((i, w) ∷ l) m n j v h k = elim (Bool-cases (i == j)) [
    | inl there ↦ rw (← (e.beq_iff i j).0 there) (and-left _ _ h)
    | inr other ↦ agree_at_sound l m n j v (and-right _ _ h) (ground arith)
  ]

  -- Maps are `==` exactly when a lookup of any key gives `==` results.
  pub map_eq_iff :
      (m n : Assoc K V)
      → (map_eq m n ≡ true) ↔ ((k : K) → option_eq value_eq (find k m) (find k n) ≡ true)
  unfolding map_eq
  map_eq_iff m n = (
    λ h k. elim (Option-cases (find k m)) [
      | inr (v, there) ↦ agree_at_sound m m n k v (and-left _ _ h) there
      | inl absent ↦ elim (Option-cases (find k n)) [
        | inl gone ↦ rw (absent, gone)
        | inr (w, there) ↦ agree_at_sound n m n k w (and-right _ _ h) there
      ]
    ],
    λ h. ground (arith, agree_at_complete (keys m) m n h, agree_at_complete (keys n) m n h),
  )
