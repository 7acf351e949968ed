-- ===== src/Flow/Select.antt =====
-- src/flow/filter.h. The loop of `next` runs on fuel, since a child may go on for ever.
use lattice_flow.Base.{
  ◌≡◌, refl, ◌∙◌, Bool, true, false, List, [], ◌∷◌, Option, none, some, arith, ℕ, zero, suc, ◌<◌,
  length, filter_by, if◌then◌else◌, Bool-cases, inl, inr,
}
use lattice_flow.Flow.Operator.{Operator, Yields}

module _ {ℓ κ} {S : Type ℓ} {T : Type κ} (predicate : T → Bool) (child : Operator S T) where
  unfoldable pub scan : ℕ → S → Option T × S
  scan zero s = (none, s)
  scan (suc n) s =
      let (x, s') = child.next s in
      let rest = scan n s' in
      elim x [ some a ↦ if predicate a then (some a, s') else rest | none ↦ (none, s') ]

  abbrev pub filter : ℕ → Operator S T
  filter fuel = record { next = scan fuel; reset = child.reset }

  scan_hit :
      (n : ℕ) (s : S) (x : T)
      → (child.next s).0 ≡ some x
      → predicate x ≡ true
      → scan (suc n) s ≡ (some x, (child.next s).1)
  unfolding scan
  scan_hit n s x h p = ground arith

  scan_miss :
      (n : ℕ) (s : S) (x : T)
      → (child.next s).0 ≡ some x
      → predicate x ≡ false
      → scan (suc n) s ≡ scan n (child.next s).1
  unfolding scan
  scan_miss n s x h p = ground arith

  scan_end : (n : ℕ) (s : S) → (child.next s).0 ≡ none → scan (suc n) s ≡ (none, (child.next s).1)
  unfolding scan
  scan_end n s h = ground arith

  -- More fuel than the child gives tuples changes nothing.
  scan_enough :
      (xs : List T) (m n : ℕ) (s : S)
      → Yields child s xs
      → length xs < m
      → length xs < n
      → scan m s ≡ scan n s
  scan_enough xs zero n s y h k = absurd (omega arith)
  scan_enough xs (suc m) zero s y h k = absurd (omega arith)
  scan_enough [] (suc m) (suc n) s y h k = rw (scan_end m s y, scan_end n s y)
  scan_enough (x ∷ xs) (suc m) (suc n) s (e, y) h k = elim (Bool-cases (predicate x)) [
    | inl p ↦ rw (scan_hit m s x e p, scan_hit n s x e p)
    | inr p ↦
        rw (scan_miss m s x e p, scan_miss n s x e p)
          (scan_enough xs m n (child.next s).1 y (omega arith) (omega arith))
  ]

  same_next :
      (op : Operator S T) (s t : S) (xs : List T)
      → op.next s ≡ op.next t
      → Yields op t xs
      → Yields op s xs
  same_next op s t [] e y = rw e y
  same_next op s t (x ∷ xs) e y = rw e y

  -- With more fuel than the child has tuples left, a filter gives those of them that pass its
  -- predicate, in order.
  filter-Yields :
      (fuel : ℕ) (s : S) (xs : List T)
      → Yields child s xs
      → length xs < fuel
      → Yields (filter fuel) s (filter_by predicate xs)
  filter-Yields zero s xs y h = absurd (omega arith)
  filter-Yields (suc n) s [] y h = rw (scan_end n s y)
  filter-Yields (suc n) s (x ∷ xs) (e, y) h = elim (Bool-cases (predicate x)) [
    | inl p ↦
        rw (p, scan_hit n s x e p) (refl, filter-Yields (suc n) (child.next s).1 xs y (omega arith))
    | inr p ↦ rw p (
        same_next (filter (suc n)) s (child.next s).1 (filter_by predicate xs)
          (scan_miss n s x e p
            ∙ scan_enough xs n (suc n) (child.next s).1 y (omega arith) (omega arith))
          (filter-Yields (suc n) (child.next s).1 xs y (omega arith)))
  ]
