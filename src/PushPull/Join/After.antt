-- ===== src/PushPull/Join/After.antt =====
-- A join with pairs in front of its buffer.
use mathlib.Core.List.{Perm, append_assoc, append-nil, perm_middle}
use mathlib.Core.List.Perm
use lattice_flow.Base.{◌≡◌, refl, sym, ap, subst, List, [], ◌∷◌, ◌++◌, arith, Eq, ℕ, ◌+◌}
use lattice_flow.PushPull.Element.{write_down}
use lattice_flow.PushPull.Join.{
  Join, Input, left, right, pair_left, pair_right, push_input, push_left, push_right,
}

module _ {ℓ} {A : Type ℓ} where
  pub perm_back :
      (given buf : List A) (back : A) (all : List A)
      → Perm (given ++ (buf ++ back ∷ [])) all
      → Perm ((given ++ back ∷ []) ++ buf) all
  perm_back given buf back all h =
      let turned : Perm (buf ++ back ∷ []) (back ∷ buf) =
        subst (λ l. Perm (buf ++ back ∷ []) (back ∷ l)) (append-nil buf) (perm_middle buf []) in
      subst (λ l. Perm l all) (sym (append_assoc given (back ∷ []) buf))
        (Perm.trans (Perm.append_left given (Perm.symm turned)) h)

pub plus_zero : (n : ℕ) → n + 0 ≡ n
plus_zero n = omega arith

module _ {ℓ κ} {Key : Type ℓ} {T : Type κ} ⦃e : Eq Key⦄ (key_left key_right : T → Key) where
  -- A join whose buffer has these pairs in front.
  abbrev pub after : List (T × T) → Join Key T (List (T × T)) → Join Key T (List (T × T))
  after given j = record j { neighbour = given ++ j.neighbour }

  pair_left-after :
      (l : T) (rs : List T) (given buf : List (T × T))
      → pair_left key_left key_right write_down l rs (given ++ buf)
        ≡ given ++ pair_left key_left key_right write_down l rs buf
  unfolding pair_left
  pair_left-after l [] given buf = refl
  pair_left-after l (r ∷ rs) given buf =
      rw (append_assoc given buf ((l, r) ∷ [])) (pair_left-after l rs given (buf ++ (l, r) ∷ []))

  pair_right-after :
      (ls : List T) (r : T) (given buf : List (T × T))
      → pair_right key_left key_right write_down ls r (given ++ buf)
        ≡ given ++ pair_right key_left key_right write_down ls r buf
  unfolding pair_right
  pair_right-after [] r given buf = refl
  pair_right-after (l ∷ ls) r given buf =
      rw (append_assoc given buf ((l, r) ∷ [])) (pair_right-after ls r given (buf ++ (l, r) ∷ []))

  pub push_input-after :
      (x : Input T) (given : List (T × T)) (j : Join Key T (List (T × T)))
      → push_input key_left key_right write_down x (after given j)
        ≡ after given (push_input key_left key_right write_down x j)
  unfolding push_input push_left push_right
  push_input-after (left l) given j =
      ap (λ nb. record (push_left key_left key_right write_down l j) { neighbour = nb })
        (pair_left-after l _ given j.neighbour)
  push_input-after (right r) given j =
      ap (λ nb. record (push_right key_left key_right write_down r j) { neighbour = nb })
        (pair_right-after _ r given j.neighbour)
