-- ===== src/Lattices/Converge.antt =====
-- What a replica holds after it has joined a sequence of messages: the order in which they come, and
-- how often each comes, does not matter.
use mathlib.Core.List.Perm
use mathlib.Core.List.{◌++◌, Perm, Mem, mem-cons, not-mem-nil, mem-cons_self, mem-cons_of_mem}
use mathlib.Core.Logic.Or
use lattice_flow.Base.{
  ◌≡◌, refl, sym, ◌∙◌, Bool, true, ◌&&◌, List, [], ◌∷◌, arith, ◌↔◌, and-left, and-right, and-intro,
}
use mathlib.Core.Bool.{Bool-set}
use lattice_flow.Lattices.Lattice.{Lattice, IsLattice, eq, le}
use lattice_flow.Lattices.Order

module _ {ℓ κ} {L : Type ℓ} {T : Type κ} (𝓛 : Lattice L T) where
  -- Every message is joined in, in order.
  unfoldable pub join_all : L → List L → L
  join_all s [] = s
  join_all s (x ∷ xs) = join_all (𝓛.join s x) xs

  pub join_all-snoc : (s x : L) (xs : List L) → join_all s (xs ++ x ∷ []) ≡ 𝓛.join (join_all s xs) x
  unfolding join_all
  join_all-snoc s x [] = refl
  join_all-snoc s x (y ∷ xs) = join_all-snoc (𝓛.join s y) x xs

  all_le : List L → L → Bool
  all_le [] c = true
  all_le (x ∷ xs) c = le 𝓛 x c && all_le xs c

  module _ (𝓵 : IsLattice 𝓛) where
    join_all-le : (s c : L) (xs : List L) → le 𝓛 (join_all s xs) c ≡ (le 𝓛 s c && all_le xs c)
    unfolding join_all all_le
    join_all-le s c [] = ground arith
    join_all-le s c (x ∷ xs) =
        ground (arith, join_all-le (𝓛.join s x) c xs, Order.le-join_least 𝓛 𝓵 s x c)

    all_le_mem : (xs : List L) (c x : L) → all_le xs c ≡ true → Mem x xs → le 𝓛 x c ≡ true
    unfolding all_le
    all_le_mem [] c x h m = absurd (not-mem-nil m)
    all_le_mem (y ∷ xs) c x h m =
        Or.elim (Bool-set _ _) (mem-cons.0 m) (λ e. rw e (and-left _ _ h))
          (all_le_mem xs c x (and-right _ _ h))

    all_le_of_mem :
        (xs : List L) (c : L) → ((x : L) → Mem x xs → le 𝓛 x c ≡ true) → all_le xs c ≡ true
    unfolding all_le
    all_le_of_mem [] c h = refl
    all_le_of_mem (x ∷ xs) c h =
        and-intro _ _ (h x mem-cons_self) (all_le_of_mem xs c (λ y m. h y (mem-cons_of_mem x m)))

    join_all_mono :
        (s : L) (xs ys : List L)
        → ((x : L) → Mem x xs → Mem x ys)
        → le 𝓛 (join_all s xs) (join_all s ys) ≡ true
    join_all_mono s xs ys h =
        let bound = join_all-le s (join_all s ys) ys in
        let top = sym bound ∙ Order.le_refl 𝓛 𝓵 (join_all s ys) in
        join_all-le s (join_all s ys) xs
        ∙ and-intro _ _ (and-left _ _ top) (
            all_le_of_mem xs (join_all s ys)
              (λ x m. all_le_mem ys (join_all s ys) x (and-right _ _ top) (h x m)))

    -- Two replicas that start in the same state and receive the same messages, in any order and any
    -- number of times, end in `==` states.
    pub join_all_converge :
        (s : L) (xs ys : List L)
        → ((x : L) → Mem x xs ↔ Mem x ys)
        → eq 𝓛 (join_all s xs) (join_all s ys) ≡ true
    join_all_converge s xs ys h =
        Order.eq-le-le 𝓛 𝓵 (join_all s xs) (join_all s ys)
        ∙ and-intro _ _ (join_all_mono s xs ys (λ x. (h x).0))
            (join_all_mono s ys xs (λ x. (h x).1))

    pub join_all_cong :
        (s t : L) (xs : List L) → eq 𝓛 s t ≡ true → eq 𝓛 (join_all s xs) (join_all t xs) ≡ true
    unfolding join_all
    join_all_cong s t [] h = h
    join_all_cong s t (x ∷ xs) h =
        join_all_cong (𝓛.join s x) (𝓛.join t x) xs (Order.join_eq_left 𝓛 𝓵 s t x h)

    -- Equal states that receive the same messages stay equal, in whatever order these come.
    pub join_all_perm :
        (s t : L) (xs ys : List L)
        → eq 𝓛 s t ≡ true
        → Perm xs ys
        → eq 𝓛 (join_all s xs) (join_all t ys) ≡ true
    join_all_perm s t xs ys h p =
        𝓵.eq_trans (join_all s xs) (join_all s ys) (join_all t ys)
          (join_all_converge s xs ys (λ x. Perm.mem_iff p)) (join_all_cong s t ys h)

    -- A state is below what it becomes.
    pub le-join_all : (s : L) (xs : List L) → le 𝓛 s (join_all s xs) ≡ true
    unfolding join_all
    le-join_all s [] = Order.le_refl 𝓛 𝓵 s
    le-join_all s (x ∷ xs) =
        Order.le_trans 𝓛 𝓵 s (𝓛.join s x) (join_all (𝓛.join s x) xs) (Order.le-join_left 𝓛 𝓵 s x)
          (le-join_all (𝓛.join s x) xs)
