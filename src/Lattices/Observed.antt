-- ===== src/Lattices/Observed.antt =====
-- The lattice laws of a class whose values are told apart by Boolean tests that `join` combines
-- test by test, as the set lattices are.
use lattice_flow.Base.{◌≡◌, refl, sym, ◌∙◌, Bool, true, ◌↔◌}
use lattice_flow.Lattices.Lattice.{Lattice, IsLattice, eq}

module _ {ℓ κ μ} {L : Type ℓ} {T : Type κ} {X : Type μ} (𝓛 : Lattice L T) (observe : X → L → Bool)
    (eq_iff : (a b : L) → (eq 𝓛 a b ≡ true) ↔ ((x : X) → observe x a ≡ observe x b))
    (op : Bool → Bool → Bool) (op_idem : (p : Bool) → op p p ≡ p)
    (op_comm : (p q : Bool) → op p q ≡ op q p)
    (op_assoc : (p q r : Bool) → op (op p q) r ≡ op p (op q r))
    (observe-join : (x : X) (a b : L)
      → observe x (𝓛.join a b) ≡ op (observe x a) (observe x b)) where
  open 𝓛 use {join}

  observe-join_left :
      (x : X) (a b c : L)
      → observe x (join (join a b) c) ≡ op (op (observe x a) (observe x b)) (observe x c)
  observe-join_left x a b c = rw (observe-join x (join a b) c, observe-join x a b)

  observe-join_right :
      (x : X) (a b c : L)
      → observe x (join a (join b c)) ≡ op (observe x a) (op (observe x b) (observe x c))
  observe-join_right x a b c = rw (observe-join x a (join b c), observe-join x b c)

  pub observed-IsLattice : IsLattice 𝓛
  observed-IsLattice = record {
    eq_refl = λ a. (eq_iff a a).1 (λ x. refl);
    eq_sym = λ a b h. (eq_iff b a).1 (λ x. sym ((eq_iff a b).0 h x));
    eq_trans = λ a b c h k. (eq_iff a c).1 (λ x. (eq_iff a b).0 h x ∙ (eq_iff b c).0 k x);
    join_idem = λ a. (eq_iff _ _).1 (λ x. observe-join x a a ∙ op_idem (observe x a));
    join_comm = λ a b.
        (eq_iff _ _).1 (λ x.
          observe-join x a b ∙ op_comm (observe x a) (observe x b) ∙ sym (observe-join x b a));
    join_assoc = λ a b c. (eq_iff _ _).1 (λ x.
        observe-join_left x a b c
        ∙ op_assoc (observe x a) (observe x b) (observe x c)
        ∙ sym (observe-join_right x a b c));
    join_cong = λ a b c d h k. (eq_iff _ _).1 (λ x.
        observe-join x a c
        ∙ (λ i. op ((eq_iff a b).0 h x i) ((eq_iff c d).0 k x i))
        ∙ sym (observe-join x b d));
  }
