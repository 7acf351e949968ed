-- ===== src/PushPull/Dedup.antt =====
-- src/pushpull/dedup.h. A negative `num_dups`, with which nothing ever passes, is not modelled.
use lattice_flow.Base.{
  ℕ, suc, ◌+◌, ◌*◌, ◌<◌, ◌≡◌, List, [], ◌∷◌, ◌++◌, Option, none, some, arith, Eq, ◌==◌, nat_beq,
  if◌then◌else◌, beq_refl, ◌&&◌, Bool-cases, nat_beq_iff, inl, inr,
}
use lattice_flow.Std.Assoc.{Assoc, find, assign, find-assign}
use lattice_flow.PushPull.Element.{Pusher, Puller, push_all, write_down}

-- `counts_`, and what the neighbour keeps.
pub record Dedup {ℓ κ} (T : Type ℓ) (S : Type κ) : Type (ℓ ⊔ κ) where
  pub counts : Assoc T ℕ
  pub neighbour : S

balance :
    (n c k : ℕ)
    → c < suc n
    → suc n * (k + (if nat_beq (c + 1) (suc n) then 1 else 0))
        + (if nat_beq (c + 1) (suc n) then 0 else c + 1)
      ≡ suc n * k + c + 1
balance n c k h = elim (Bool-cases (nat_beq (c + 1) (suc n))) [
  | inl full ↦ rw full (omega (arith, (nat_beq_iff (c + 1) (suc n)).0 full))
  | inr more ↦ rw more (omega arith)
]

module _ {ℓ} {T : Type ℓ} ⦃e : Eq T⦄ where
  -- The value of `counts_[x]`; the map makes a missing entry with the value 0.
  unfoldable pub count_of : T → Assoc T ℕ → ℕ
  count_of x counts = elim (find x counts) [ none ↦ 0 | some n ↦ n ]

  -- `counts_[x]++`
  unfoldable pub increment : T → Assoc T ℕ → Assoc T ℕ
  increment x counts = assign x (count_of x counts + 1) counts

  pub count_of-assign :
      (x y : T) (n : ℕ) (counts : Assoc T ℕ)
      → count_of y (assign x n counts) ≡ (if x == y then n else count_of y counts)
  unfolding count_of
  count_of-assign x y n counts = ground (arith, find-assign x y n counts)

  -- How often a value occurs.
  abbrev pub count : T → List T → ℕ
  count x [] = 0
  count x (y ∷ ys) = let rest = count x ys in if y == x then suc rest else rest

  pub count-append : (x : T) (xs ys : List T) → count x (xs ++ ys) ≡ count x xs + count x ys
  count-append x [] ys = omega arith
  count-append x (y ∷ xs) ys = ground (arith, count-append x xs ys)

module _ {ℓ κ} {T : Type ℓ} {S : Type κ} ⦃e : Eq T⦄ where
  unfoldable pub push : ℕ → Pusher T S → Pusher T (Dedup T S)
  push num_dups downstream x d =
      let counts = increment x d.counts in
      if nat_beq (count_of x counts) num_dups
      then record { counts = assign x 0 counts; neighbour = downstream x d.neighbour }
      else record d { counts = counts }

module _ {ℓ κ} {T : Type ℓ} {S : Type κ} ⦃e : Eq (Option T)⦄ where
  -- The pull element counts the empty values too.
  unfoldable pub pull : ℕ → Puller T S → Puller T (Dedup (Option T) S)
  pull num_dups upstream d =
      let (x, s) = upstream d.neighbour in
      let counts = increment x d.counts in
      if nat_beq (count_of x counts) num_dups
      then (x, record { counts = assign x 0 counts; neighbour = s })
      else (none, record { counts = counts; neighbour = s })

module _ {ℓ} {T : Type ℓ} ⦃e : Eq T⦄ where
  count_of-push :
      (n : ℕ) (x y : T) (d : Dedup T (List T))
      → count_of y (push n write_down x d).counts ≡ (
          if x == y
          then if nat_beq (count_of x d.counts + 1) n then 0 else count_of x d.counts + 1
          else count_of y d.counts)
  unfolding push increment
  count_of-push n x y d = ground (
    arith,
    count_of-assign x y (count_of x d.counts + 1) d.counts,
    count_of-assign x x (count_of x d.counts + 1) d.counts,
    count_of-assign x y 0 (assign x (count_of x d.counts + 1) d.counts),
    beq_refl x,
  )

  count-push :
      (n : ℕ) (x y : T) (d : Dedup T (List T))
      → count y (push n write_down x d).neighbour
        ≡ count y d.neighbour + (if x == y && nat_beq (count_of x d.counts + 1) n then 1 else 0)
  unfolding push increment
  count-push n x y d = ground (
    arith,
    count_of-assign x x (count_of x d.counts + 1) d.counts,
    count-append y d.neighbour (x ∷ []),
    beq_refl x,
  )

  push-counts :
      (n : ℕ) (x y : T) (d : Dedup T (List T))
      → count_of x d.counts < suc n
      → count_of y d.counts < suc n
      → (suc n * count y (push (suc n) write_down x d).neighbour
            + count_of y (push (suc n) write_down x d).counts
          ≡ suc n * count y d.neighbour + count_of y d.counts + (if x == y then 1 else 0))
        × (count_of y (push (suc n) write_down x d).counts < suc n)
  push-counts n x y d h k = elim (Bool-cases (x == y)) [
    | inl here ↦
        rw (count-push (suc n) x y d, count_of-push (suc n) x y d, here)
          (rw ((e.beq_iff x y).0 here)
            (balance n (count_of y d.counts) (count y d.neighbour) k, ground arith))
    | inr other ↦ rw (count-push (suc n) x y d, count_of-push (suc n) x y d, other) (omega arith, k)
  ]

  -- A dedup with a positive number of dups passes on one copy of a value for every `num_dups` that it
  -- is given. After any pushes into a dedup whose counts are below `num_dups`, the copies of a value
  -- passed on so far, times `num_dups`, plus the count kept for it, have grown by the number of times
  -- that it was pushed; and every count is still below `num_dups`.
  push_all-push_dedup :
      (n : ℕ) (xs : List T) (y : T) (d : Dedup T (List T))
      → ((x : T) → count_of x d.counts < suc n)
      → (suc n * count y (push_all (push (suc n) write_down) xs d).neighbour
            + count_of y (push_all (push (suc n) write_down) xs d).counts
          ≡ suc n * count y d.neighbour + count_of y d.counts + count y xs)
        × (count_of y (push_all (push (suc n) write_down) xs d).counts < suc n)
  unfolding push_all
  push_all-push_dedup n [] y d h = ground (arith, h y)
  push_all-push_dedup n (x ∷ xs) y d h =
      let step = push-counts n x y d (h x) (h y) in
      let (sum, below) =
        push_all-push_dedup n xs y (push (suc n) write_down x d)
          (λ z. (push-counts n x z d (h x) (h z)).1) in
      (ground arith, below)
