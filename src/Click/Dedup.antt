-- ===== src/Click/Dedup.antt =====
-- src/click/dedup.h, and that it passes on what src/pushpull/dedup.h does.
use lattice_flow.Base.{
  ℕ, suc, ◌+◌, ◌≡◌, List, [], ◌∷◌, none, some, arith, Eq, ◌==◌, nat_beq, if◌then◌else◌, beq_refl,
}
use lattice_flow.Std.Assoc.{Assoc, find, assign, erase, find-erase}
use lattice_flow.PushPull.Element.{Pusher, push_all}
use lattice_flow.PushPull.Dedup
use lattice_flow.PushPull.Dedup.{Dedup, count_of, increment, count_of-assign}

module _ {ℓ} {T : Type ℓ} ⦃e : Eq T⦄ where
  count_of-erase :
      (x y : T) (counts : Assoc T ℕ)
      → count_of y (erase x counts) ≡ (if x == y then 0 else count_of y counts)
  unfolding count_of
  count_of-erase x y counts = ground (arith, find-erase x y counts)

module _ {ℓ κ} {T : Type ℓ} {S : Type κ} ⦃e : Eq T⦄ where
  unfoldable pub push : ℕ → Pusher T S → Pusher T (Dedup T S)
  push num_dups downstream x d = elim (find x d.counts) [
    | none ↦ record d { counts = assign x 1 d.counts }
    | some n ↦
        let counts = assign x (n + 1) d.counts in
        if nat_beq (n + 1) num_dups
        then record { counts = erase x counts; neighbour = downstream x d.neighbour }
        else record d { counts = counts }
  ]

  -- Two dedups that have passed on the same and keep the same count for every value.
  pub record Agrees (c d : Dedup T S) : Type (ℓ ⊔ κ) where
    pub same_neighbour : c.neighbour ≡ d.neighbour
    pub same_counts : (y : T) → count_of y c.counts ≡ count_of y d.counts

  push-Agrees :
      (n : ℕ) (downstream : Pusher T S) (x : T) (c d : Dedup T S)
      → Agrees c d
      → Agrees (push (suc (suc n)) downstream x c) (Dedup.push (suc (suc n)) downstream x d)
  unfolding push Dedup.push increment count_of
  push-Agrees n downstream x c d a = record {
    same_neighbour = ground (
      arith,
      a.same_neighbour,
      a.same_counts x,
      count_of-assign x x (count_of x d.counts + 1) d.counts,
      beq_refl x,
    );
    same_counts = λ y. ground (
      arith,
      a.same_counts x,
      a.same_counts y,
      count_of-assign x y 1 c.counts,
      count_of-assign x y (count_of x c.counts + 1) c.counts,
      count_of-erase x y (assign x (count_of x c.counts + 1) c.counts),
      count_of-assign x x (count_of x d.counts + 1) d.counts,
      count_of-assign x y (count_of x d.counts + 1) d.counts,
      count_of-assign x y 0 (assign x (count_of x d.counts + 1) d.counts),
      beq_refl x,
    );
  }

  -- For at least two dups the dedup of src/click, which erases a full count, passes on to the same
  -- downstream element the same values as the one of src/pushpull, which sets it to 0: after any pushes
  -- the two still agree on what they have passed on and on the count of every value.
  push_all-Agrees :
      (n : ℕ) (downstream : Pusher T S) (xs : List T) (c d : Dedup T S)
      → Agrees c d
      → Agrees
          (push_all (push (suc (suc n)) downstream) xs c)
          (push_all (Dedup.push (suc (suc n)) downstream) xs d)
  unfolding push_all
  push_all-Agrees n downstream [] c d a = a
  push_all-Agrees n downstream (x ∷ xs) c d a =
      push_all-Agrees n downstream xs (push (suc (suc n)) downstream x c)
        (Dedup.push (suc (suc n)) downstream x d) (push-Agrees n downstream x c d a)
