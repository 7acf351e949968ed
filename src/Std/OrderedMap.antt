-- ===== src/Std/OrderedMap.antt =====
-- `std::map` with a comparison for its order: two keys are the same if neither is less.
use lattice_flow.Base.{Bool, not, ◌&&◌, Option, none, some, [], ◌∷◌, if◌then◌else◌}
use lattice_flow.Std.Assoc.{Assoc}

abbrev pub same_key {ℓ} : {K : Type ℓ} → (K → K → Bool) → K → K → Bool
same_key lt j k = not (lt j k) && not (lt k j)

module _ {ℓ κ} {K : Type ℓ} {V : Type κ} (lt : K → K → Bool) where
  unfoldable pub find_key : K → Assoc K V → Option V
  find_key k [] = none
  find_key k ((j, v) ∷ m) = if same_key lt j k then some v else find_key k m

  -- A write through the reference to the value of a key, which makes an entry if there is none. A key
  -- that is there stays as it was.
  unfoldable pub set_key : K → V → Assoc K V → Assoc K V
  set_key k v [] = (k, v) ∷ []
  set_key k v ((j, w) ∷ m) =
      let rest = set_key k v m in if same_key lt j k then (j, v) ∷ m else (j, w) ∷ rest

  unfoldable pub erase_key : K → Assoc K V → Assoc K V
  erase_key k [] = []
  erase_key k ((j, w) ∷ m) =
      let rest = erase_key k m in if same_key lt j k then m else (j, w) ∷ rest
