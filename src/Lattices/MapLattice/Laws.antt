-- ===== src/Lattices/MapLattice/Laws.antt =====
-- MapLattice is a pointwise lattice: lookups before and after each operation, and the lattice laws.
use lattice_flow.Base.{
  ◌≡◌, refl, Bool, true, [], ◌∷◌, arith, Eq, ◌==◌, if◌then◌else◌, Option, none, some, ◌↔◌,
  Option-cases, inl, inr,
}
use lattice_flow.Lattices.Lattice.{Lattice, IsLattice, eq}
use lattice_flow.Std.Assoc.{Assoc, find, find-add, find-modify}
use lattice_flow.Std.UnorderedMap.{IsDistinct, insert, update, option_eq, map_eq_iff}
use lattice_flow.Lattices.MapLattice.{MapLattice, get, put, join_entries, join, map_lattice}

-- A key that one side misses gets the other side's value.
abbrev pub join_option {ℓ} : {V : Type ℓ} → (V → V → V) → Option V → Option V → Option V
join_option f none o = o
join_option f (some v) none = some v
join_option f (some v) (some w) = some (f v w)

module _ {ℓ κ} {V : Type ℓ} {T : Type κ} (𝓥 : Lattice V T) (𝓵 : IsLattice 𝓥) where
  abbrev pub oeq : Option V → Option V → Bool
  oeq = option_eq (eq 𝓥)

  abbrev ojoin : Option V → Option V → Option V
  ojoin = join_option 𝓥.join

  pub oeq_refl : (a : Option V) → oeq a a ≡ true
  oeq_refl none = refl
  oeq_refl (some a) = 𝓵.eq_refl a

  pub oeq_sym : (a b : Option V) → oeq a b ≡ true → oeq b a ≡ true
  oeq_sym none none h = h
  oeq_sym none (some b) h = h
  oeq_sym (some a) none h = h
  oeq_sym (some a) (some b) h = 𝓵.eq_sym a b h

  pub oeq_trans : (a b c : Option V) → oeq a b ≡ true → oeq b c ≡ true → oeq a c ≡ true
  oeq_trans none none c h k = k
  oeq_trans none (some b) c h k = cc
  oeq_trans (some a) none c h k = cc
  oeq_trans (some a) (some b) none h k = cc
  oeq_trans (some a) (some b) (some c) h k = 𝓵.eq_trans a b c h k

  ojoin_idem : (a : Option V) → oeq (ojoin a a) a ≡ true
  ojoin_idem none = refl
  ojoin_idem (some a) = 𝓵.join_idem a

  ojoin_comm : (a b : Option V) → oeq (ojoin a b) (ojoin b a) ≡ true
  ojoin_comm none none = refl
  ojoin_comm none (some b) = 𝓵.eq_refl b
  ojoin_comm (some a) none = 𝓵.eq_refl a
  ojoin_comm (some a) (some b) = 𝓵.join_comm a b

  ojoin_assoc : (a b c : Option V) → oeq (ojoin (ojoin a b) c) (ojoin a (ojoin b c)) ≡ true
  ojoin_assoc none b c = oeq_refl (ojoin b c)
  ojoin_assoc (some a) none c = oeq_refl (ojoin (some a) c)
  ojoin_assoc (some a) (some b) none = 𝓵.eq_refl (𝓥.join a b)
  ojoin_assoc (some a) (some b) (some c) = 𝓵.join_assoc a b c

  ojoin_cong :
      (a b c d : Option V) → oeq a b ≡ true → oeq c d ≡ true → oeq (ojoin a c) (ojoin b d) ≡ true
  ojoin_cong none none c d h k = k
  ojoin_cong none (some b) c d h k = cc
  ojoin_cong (some a) none c d h k = cc
  ojoin_cong (some a) (some b) none none h k = h
  ojoin_cong (some a) (some b) none (some d) h k = cc
  ojoin_cong (some a) (some b) (some c) none h k = cc
  ojoin_cong (some a) (some b) (some c) (some d) h k = 𝓵.join_cong a b c d h k

module _ {ℓ κ ℓ'} {K : Type ℓ} ⦃e : Eq K⦄ {V : Type κ} {T : Type ℓ'} (𝓥 : Lattice V T) where
  -- After `put(k, v)` a lookup of `k` finds `v`, joined into the value that the map already had for
  -- `k`; a lookup of any other key finds what it found before.
  pub get-put :
      (m : MapLattice K V) (k j : K) (v : V)
      → get (put 𝓥 k v m) j ≡ (if k == j then join_option 𝓥.join (get m k) (some v) else get m j)
  unfolding get put insert update
  get-put m k j v = elim (Option-cases (find k m.kvs.entries)) [
    | inl absent ↦ ground (arith, find-add k j v m.kvs.entries)
    | inr (w, there) ↦
        ground (arith, find-modify k j (λ (old : V). 𝓥.join old v) m.kvs.entries, e.beq_iff k j)
  ]

  get-join_entries :
      (es : Assoc K V) (m : MapLattice K V) (j : K)
      → IsDistinct es
      → get (join_entries 𝓥 es m) j ≡ join_option 𝓥.join (get m j) (find j es)
  unfolding join_entries find
  get-join_entries [] m j d = ground arith
  get-join_entries ((k, v) ∷ es) m j d =
      ground (arith, get-join_entries es (put 𝓥 k v m) j d.1, get-put m k j v, e.beq_iff k j)

  -- A lookup in the join of two maps finds the join of what it finds in each, and where only one map
  -- has the key, that map's value.
  pub get-join :
      (m l : MapLattice K V) (j : K) → get (join 𝓥 m l) j ≡ join_option 𝓥.join (get m j) (get l j)
  unfolding join get
  get-join m l j = get-join_entries l.kvs.entries m j l.kvs.distinct

  -- Two maps are `==` exactly when lookups agree.
  pub eq_iff :
      (m l : MapLattice K V)
      → (eq (map_lattice 𝓥) m l ≡ true) ↔ ((k : K) → option_eq (eq 𝓥) (get m k) (get l k) ≡ true)
  unfolding get
  eq_iff m l = map_eq_iff (eq 𝓥) m.kvs.entries l.kvs.entries

  module _ (𝓵 : IsLattice 𝓥) where
    eq_of_get :
        (m l : MapLattice K V)
        → ((k : K) → option_eq (eq 𝓥) (get m k) (get l k) ≡ true)
        → eq (map_lattice 𝓥) m l ≡ true
    eq_of_get m l = (eq_iff m l).1

    -- MapLattice over a lattice of values is a join semilattice: up to `==` of maps, which is an
    -- equivalence, `join` is idempotent, commutative and associative, and it respects `==`.
    pub map_lattice-IsLattice : IsLattice (map_lattice {K = K} 𝓥)
    map_lattice-IsLattice = record {
      eq_refl = λ a. eq_of_get a a (λ k. oeq_refl 𝓥 𝓵 (get a k));
      eq_sym = λ a b h. eq_of_get b a (λ k. oeq_sym 𝓥 𝓵 (get a k) (get b k) ((eq_iff a b).0 h k));
      eq_trans = λ a b c g h. eq_of_get a c (λ k.
          oeq_trans 𝓥 𝓵 (get a k) (get b k) (get c k) ((eq_iff a b).0 g k) ((eq_iff b c).0 h k));
      join_idem =
          λ a. eq_of_get (join 𝓥 a a) a (λ k. rw (get-join a a k) (ojoin_idem 𝓥 𝓵 (get a k)));
      join_comm = λ a b.
          eq_of_get (join 𝓥 a b) (join 𝓥 b a)
            (λ k. rw (get-join a b k, get-join b a k) (ojoin_comm 𝓥 𝓵 (get a k) (get b k)));
      join_assoc = λ a b c. eq_of_get (join 𝓥 (join 𝓥 a b) c) (join 𝓥 a (join 𝓥 b c)) (λ k.
          rw (get-join (join 𝓥 a b) c k, get-join a b k, get-join a (join 𝓥 b c) k, get-join b c k)
            (ojoin_assoc 𝓥 𝓵 (get a k) (get b k) (get c k)));
      join_cong = λ a b c d g h. eq_of_get (join 𝓥 a c) (join 𝓥 b d) (λ k.
          rw (get-join a c k, get-join b d k)
            (ojoin_cong 𝓥 𝓵 (get a k) (get b k) (get c k) (get d k) ((eq_iff a b).0 g k)
              ((eq_iff c d).0 h k)));
    }
