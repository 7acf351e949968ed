-- ===== src/Std/Entries.antt =====
-- An entry of a map among the others.
use lattice_flow.Base.{◌≡◌, refl, ap, false, [], ◌∷◌, ◌++◌, arith, Eq, ◌==◌, none, some}
use lattice_flow.Std.Assoc.{Assoc, find, keys, add, erase}
use lattice_flow.Std.UnorderedMap.{IsDistinct}

module _ {ℓ κ} {K : Type ℓ} {V : Type κ} ⦃e : Eq K⦄ where
  -- A map that holds a key at some place holds it.
  absent_middle :
      (j k : K) (v : V) (before after : Assoc K V)
      → find j (before ++ (k, v) ∷ after) ≡ none
      → (k == j) ≡ false
  unfolding find
  absent_middle j k v [] after h = ground arith
  absent_middle j k v ((i, w) ∷ before) after h = ground (arith, absent_middle j k v before after)

  absent_rest :
      (j k : K) (v : V) (before after : Assoc K V)
      → find j (before ++ (k, v) ∷ after) ≡ none
      → find j (before ++ after) ≡ none
  unfolding find
  absent_rest j k v [] after h = ground arith
  absent_rest j k v ((i, w) ∷ before) after h = ground (arith, absent_rest j k v before after)

  pub find_middle :
      (k : K) (v : V) (before after : Assoc K V)
      → IsDistinct (before ++ (k, v) ∷ after)
      → find k (before ++ (k, v) ∷ after) ≡ some v
  unfolding find
  find_middle k v [] after d = ground (arith, e.beq_iff k k)
  find_middle k v ((j, w) ∷ before) after (absent, d) = ground (
    arith,
    e.beq_iff j k,
    e.beq_iff k j,
    absent_middle j k v before after absent,
    find_middle k v before after d,
  )

  erase_absent : (k : K) (m : Assoc K V) → find k m ≡ none → erase k m ≡ m
  unfolding find erase
  erase_absent k [] h = refl
  erase_absent k ((j, w) ∷ m) h = ground (arith, erase_absent k m)

  pub erase_middle :
      (k : K) (v : V) (before after : Assoc K V)
      → IsDistinct (before ++ (k, v) ∷ after)
      → erase k (before ++ (k, v) ∷ after) ≡ before ++ after
  unfolding erase
  erase_middle k v [] after (absent, d) = ground (arith, e.beq_iff k k, erase_absent k after absent)
  erase_middle k v ((j, w) ∷ before) after (absent, d) = ground (
    arith,
    e.beq_iff j k,
    e.beq_iff k j,
    absent_middle j k v before after absent,
    erase_middle k v before after d,
  )

  pub rest-IsDistinct :
      (k : K) (v : V) (before after : Assoc K V)
      → IsDistinct (before ++ (k, v) ∷ after)
      → IsDistinct (before ++ after)
  rest-IsDistinct k v [] after (absent, d) = d
  rest-IsDistinct k v ((j, w) ∷ before) after (absent, d) =
      (absent_rest j k v before after absent, rest-IsDistinct k v before after d)

  pub add_lem : (k : K) (v : V) (m : Assoc K V) → add k v m ≡ m ++ (k, v) ∷ []
  unfolding add
  add_lem k v [] = refl
  add_lem k v ((j, w) ∷ m) = ap (λ l. (j, w) ∷ l) (add_lem k v m)

  pub keys-append : (m n : Assoc K V) → keys (m ++ n) ≡ keys m ++ keys n
  keys-append [] n = refl
  keys-append ((k, v) ∷ m) n = ap (λ l. k ∷ l) (keys-append m n)
