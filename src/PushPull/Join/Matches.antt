-- ===== src/PushPull/Join/Matches.antt =====
-- The push join against the pairs that match: a symmetric hash join computes the equijoin.
use mathlib.Core.List.{Perm, append_assoc, append-nil, perm_middle, map-append}
use mathlib.Core.List.Perm
use lattice_flow.Base.{
  ◌≡◌, refl, sym, ◌∙◌, ap, subst, Bool, List, [], ◌∷◌, ◌++◌, map, arith, Eq, ◌==◌, if◌then◌else◌,
  filter_by, Bool-cases, inl, inr, Bool-ext, beq_sym,
}
use lattice_flow.Std.Assoc.{Assoc, find}
use lattice_flow.PushPull.Element.{push_all, write_down}
use lattice_flow.PushPull.Join.{
  Join, Input, left, right, Inputs, note_input, at_key, at_key-push_back, pair_left, pair_right,
  push_back, push_left, push_right, push_input,
}

module _ {ℓ} {A : Type ℓ} where
  perm_keep : (ps ms ms' cs : List A) → Perm ms' (ms ++ cs) → Perm (ps ++ ms') ((ps ++ ms) ++ cs)
  perm_keep ps ms ms' cs h =
      subst (λ (l : List A). Perm (ps ++ ms') l) (sym (append_assoc ps ms cs))
        (Perm.append_left ps h)

  perm_shift :
      (ps ms ms' cs : List A) (p : A)
      → Perm ms' (ms ++ cs)
      → Perm ((ps ++ p ∷ []) ++ ms') ((ps ++ ms) ++ p ∷ cs)
  perm_shift ps ms ms' cs p h =
      subst (λ (l : List A). Perm l ((ps ++ ms) ++ p ∷ cs)) (sym (append_assoc ps (p ∷ []) ms'))
        (subst (λ (l : List A). Perm (ps ++ p ∷ ms') l) (sym (append_assoc ps ms (p ∷ cs)))
          (Perm.append_left ps (Perm.trans (Perm.cons p h) (Perm.symm (perm_middle ms cs)))))

module _ {ℓ κ} {Key : Type ℓ} {T : Type κ} ⦃e : Eq Key⦄ (key_left key_right : T → Key) where
  -- The right values that match a left one, and the left values that match a right one.
  abbrev pub row : T → List T → List T
  row l rs = filter_by (λ r. key_right r == key_left l) rs

  abbrev pub column : T → List T → List T
  column r ls = filter_by (λ l. key_left l == key_right r) ls

  -- All pairs with the same key.
  abbrev pub matches : List T → List T → List (T × T)
  matches [] rs = []
  matches (l ∷ ls) rs = map (λ r. (l, r)) (row l rs) ++ matches ls rs

  filter_by-snoc :
      (p : T → Bool) (xs : List T) (x : T)
      → filter_by p (xs ++ x ∷ []) ≡ filter_by p xs ++ (if p x then x ∷ [] else [])
  filter_by-snoc p [] x = ground arith
  filter_by-snoc p (y ∷ xs) x = ground (arith, filter_by-snoc p xs x)

  beq_flip : (k m : Key) → (m == k) ≡ (k == m)
  beq_flip k m = Bool-ext (m == k) (k == m) (beq_sym m k) (beq_sym k m)

  matches-snoc_left :
      (ls rs : List T) (l : T)
      → matches (ls ++ l ∷ []) rs ≡ matches ls rs ++ map (λ r. (l, r)) (row l rs)
  matches-snoc_left [] rs l = append-nil (map (λ r. (l, r)) (row l rs))
  matches-snoc_left (k ∷ ls) rs l =
      ap (λ (m : List (T × T)). map (λ r. (k, r)) (row k rs) ++ m) (matches-snoc_left ls rs l)
      ∙ sym (
          append_assoc (map (λ r. (k, r)) (row k rs)) (matches ls rs)
            (map (λ r. (l, r)) (row l rs)))

  pair_left-write_down :
      (l : T) (rs : List T) (log : List (T × T))
      → pair_left key_left key_right write_down l rs log ≡ log ++ map (λ r. (l, r)) rs
  unfolding pair_left
  pair_left-write_down l [] log = sym (append-nil log)
  pair_left-write_down l (r ∷ rs) log =
      pair_left-write_down l rs (log ++ (l, r) ∷ [])
      ∙ append_assoc log ((l, r) ∷ []) (map (λ s. (l, s)) rs)

  pair_right-write_down :
      (ls : List T) (r : T) (log : List (T × T))
      → pair_right key_left key_right write_down ls r log ≡ log ++ map (λ l. (l, r)) ls
  unfolding pair_right
  pair_right-write_down [] r log = sym (append-nil log)
  pair_right-write_down (l ∷ ls) r log =
      pair_right-write_down ls r (log ++ (l, r) ∷ [])
      ∙ append_assoc log ((l, r) ∷ []) (map (λ k. (k, r)) ls)

  -- One more right value adds a pair for each left value that it matches.
  matches-snoc_right :
      (ls rs : List T) (r : T)
      → Perm (matches ls (rs ++ r ∷ [])) (matches ls rs ++ map (λ l. (l, r)) (column r ls))
  matches-snoc_right [] rs r = Perm.refl []
  matches-snoc_right (l ∷ ls) rs r = elim (Bool-cases (key_left l == key_right r)) [
    | inl same ↦
        rw
          (
            filter_by-snoc (λ s. key_right s == key_left l) rs r,
            beq_flip (key_left l) (key_right r),
            same,
            map-append {B = T × T} (λ s. (l, s)) (row l rs) (r ∷ []),
          )
          (perm_shift (map (λ s. (l, s)) (row l rs)) (matches ls rs) (matches ls (rs ++ r ∷ []))
            (map (λ k. (k, r)) (column r ls)) (l, r) (matches-snoc_right ls rs r))
    | inr differ ↦
        rw
          (
            filter_by-snoc (λ s. key_right s == key_left l) rs r,
            beq_flip (key_left l) (key_right r),
            differ,
            append-nil (row l rs),
          )
          (perm_keep (map (λ s. (l, s)) (row l rs)) (matches ls rs) (matches ls (rs ++ r ∷ []))
            (map (λ k. (k, r)) (column r ls)) (matches-snoc_right ls rs r))
  ]

  -- What a join keeps for the values that it has been given, and has pushed downstream.
  pub record Computes (i : Inputs T) (j : Join Key T (List (T × T))) : Type (ℓ ⊔ κ) where
    pub lefts_kept : (k : Key) → at_key k j.left_map ≡ filter_by (λ l. key_left l == k) i.lefts
    pub rights_kept : (k : Key) → at_key k j.right_map ≡ filter_by (λ r. key_right r == k) i.rights
    pub pushed : Perm j.neighbour (matches i.lefts i.rights)

  kept-push_back :
      (key : T → Key) (k : Key) (x : T) (xs : List T) (m : Assoc Key (List T))
      → ((k : Key) → at_key k m ≡ filter_by (λ y. key y == k) xs)
      → at_key k (push_back (key x) x m) ≡ filter_by (λ y. key y == k) (xs ++ x ∷ [])
  kept-push_back key k x xs m h = ground (
    arith,
    at_key-push_back (key x) k x m,
    h (key x),
    h k,
    filter_by-snoc (λ y. key y == k) xs x,
    append-nil (filter_by (λ y. key y == k) xs),
    e.beq_iff (key x) k,
  )

  pub push_input-Computes :
      (x : Input T) (i : Inputs T) (j : Join Key T (List (T × T)))
      → Computes i j
      → Computes (note_input x i) (push_input key_left key_right write_down x j)
  unfolding push_input push_left push_right
  push_input-Computes (left l) i j c = record {
    lefts_kept = λ k. kept-push_back key_left k l i.lefts j.left_map c.lefts_kept;
    rights_kept = c.rights_kept;
    pushed =
        rw
          (
            pair_left-write_down l (at_key (key_left l) j.right_map) j.neighbour,
            c.rights_kept (key_left l),
            matches-snoc_left i.lefts i.rights l,
          )
          (Perm.append_right (map (λ r. (l, r)) (row l i.rights)) c.pushed);
  }
  push_input-Computes (right r) i j c = record {
    lefts_kept = c.lefts_kept;
    rights_kept = λ k. kept-push_back key_right k r i.rights j.right_map c.rights_kept;
    pushed =
        rw
          (
            pair_right-write_down (at_key (key_right r) j.left_map) r j.neighbour,
            c.lefts_kept (key_right r),
          )
          (Perm.trans (Perm.append_right (map (λ l. (l, r)) (column r i.lefts)) c.pushed)
            (Perm.symm (matches-snoc_right i.lefts i.rights r)));
  }

  -- Each push keeps what `Computes` says of the values pushed so far.
  pub push_all-Computes :
      (xs : List (Input T)) (i : Inputs T) (j : Join Key T (List (T × T)))
      → Computes i j
      → Computes
          (push_all note_input xs i)
          (push_all (push_input key_left key_right write_down) xs j)
  unfolding push_all
  push_all-Computes [] i j c = c
  push_all-Computes (x ∷ xs) i j c =
      push_all-Computes xs (note_input x i) (push_input key_left key_right write_down x j)
        (push_input-Computes x i j c)

  abbrev pub empty : Join Key T (List (T × T))
  empty = record { left_map = []; right_map = []; neighbour = [] }

  abbrev pub inputs : List (Input T) → Inputs T
  inputs xs = push_all note_input xs (record { lefts = []; rights = [] })

  pub empty-Computes : Computes (record { lefts = []; rights = [] }) empty
  unfolding at_key find
  empty-Computes = record { lefts_kept = λ k. refl; rights_kept = λ k. refl; pushed = Perm.refl [] }

  -- The push join computes the equijoin: after any pushes into the two inputs of a new join, it has
  -- pushed downstream exactly one pair for each two values with the same key, one from either input,
  -- in some order.
  pub push_all_equijoin :
      (xs : List (Input T))
      → Perm
          (push_all (push_input key_left key_right write_down) xs empty).neighbour
          (matches (inputs xs).lefts (inputs xs).rights)
  push_all_equijoin xs =
      (push_all-Computes xs (record { lefts = []; rights = [] }) empty empty-Computes).pushed
