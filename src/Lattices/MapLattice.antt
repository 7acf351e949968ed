-- ===== src/Lattices/MapLattice.antt =====
-- src/lattices/map_lattice.h and src/lattices/tombstoned_set_union_lattice.h.
pub mod Laws
use lattice_flow.Base.{Bool, not, Option, List, [], ◌∷◌, Eq, if◌then◌else◌}
use lattice_flow.Lattices.Lattice.{Lattice, eq}
use lattice_flow.Lattices.BoolOr.{BoolOrLattice}
use lattice_flow.Std.Assoc.{Assoc, find, has}
use lattice_flow.Std.UnorderedMap.{UnorderedMap, empty, insert, update, map_eq}

pub record MapLattice {ℓ κ} (K : Type ℓ) ⦃e : Eq K⦄ (V : Type κ) : Type (ℓ ⊔ κ) where
  pub kvs : UnorderedMap K V

module _ {ℓ κ} {K : Type ℓ} ⦃e : Eq K⦄ {V : Type κ} where
  unfoldable pub init : MapLattice K V
  init = record { kvs = empty }

  -- `get(key)`, the lookup `kvs_.at(key)`; where that throws `std::out_of_range`, this is `none`.
  unfoldable pub get : MapLattice K V → K → Option V
  get m key = find key m.kvs.entries

module _ {ℓ κ ℓ'} {K : Type ℓ} ⦃e : Eq K⦄ {V : Type κ} {T : Type ℓ'} (𝓥 : Lattice V T) where
  unfoldable pub put : K → V → MapLattice K V → MapLattice K V
  put key val m =
      if not (has key m.kvs.entries)
      then record { kvs = insert key val m.kvs }
      else record { kvs = update key (λ old. 𝓥.join old val) m.kvs }

  -- The loop of `join` over the entries of the other map; its body is that of `put`.
  unfoldable pub join_entries : Assoc K V → MapLattice K V → MapLattice K V
  unfolding put
  join_entries [] m = m
  join_entries ((key, value) ∷ rest) m = join_entries rest (put key value m)

  unfoldable pub join : MapLattice K V → MapLattice K V → MapLattice K V
  unfolding join_entries
  join m l = join_entries l.kvs.entries m

  abbrev pub map_lattice : Lattice (MapLattice K V) (UnorderedMap K V)
  map_lattice = record {
    get = λ m. m.kvs;
    join = join;
    value_eq = λ m n. map_eq (eq 𝓥) m.entries n.entries;
  }

abbrev pub TombstonedSetUnionLattice {ℓ} : (T : Type ℓ) ⦃e : Eq T⦄ → Type ℓ
TombstonedSetUnionLattice T = MapLattice T BoolOrLattice
