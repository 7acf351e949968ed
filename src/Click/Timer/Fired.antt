-- ===== src/Click/Timer/Fired.antt =====
-- Which entries of a timer's map go, and which stay.
use mathlib.Core.List.{append_assoc}
use mathlib.Core.List.Perm
use mathlib.Core.List.{Perm, perm_middle}
use lattice_flow.Base.{
  ℕ, ◌+◌, ◌<◌, ◌≡◌, refl, sym, ap, subst, Bool, true, false, none, List, [], ◌∷◌, ◌++◌, arith,
  nat_eq,
}
use lattice_flow.Std.Assoc.{Assoc, find}
use lattice_flow.Std.UnorderedMap.{IsDistinct}
use lattice_flow.Std.Entries.{rest-IsDistinct}
use lattice_flow.Click.Timer.{}

module _ {ℓ} {T : Type ℓ} where
  abbrev pub values : Assoc ℕ T → List T
  values [] = []
  values ((id, x) ∷ m) = x ∷ values m

  -- The values of the entries whose timers expire, and the entries whose timers do not.
  abbrev pub fired : Assoc ℕ T → List Bool → List T
  fired [] flags = []
  fired (e ∷ m) [] = []
  fired (e ∷ m) (false ∷ flags) = fired m flags
  fired ((id, x) ∷ m) (true ∷ flags) = x ∷ fired m flags

  abbrev pub spared : Assoc ℕ T → List Bool → Assoc ℕ T
  spared [] flags = []
  spared (e ∷ m) [] = e ∷ m
  spared (e ∷ m) (false ∷ flags) = e ∷ spared m flags
  spared (e ∷ m) (true ∷ flags) = spared m flags

  abbrev pub Below : ℕ → Assoc ℕ T → Type 0
  Below n [] = Unit
  Below n ((id, x) ∷ m) = (id < n) × Below n m

  pub Below-absent : (n : ℕ) (m : Assoc ℕ T) → Below n m → find n m ≡ none
  unfolding find
  Below-absent n [] b = refl
  Below-absent n ((id, x) ∷ m) (h, b) = ground (arith, nat_eq.beq_iff id n, Below-absent n m b)

  pub Below-snoc : (n : ℕ) (x : T) (m : Assoc ℕ T) → Below n m → Below (n + 1) (m ++ (n, x) ∷ [])
  Below-snoc n x [] b = (omega arith, tt)
  Below-snoc n x ((id, y) ∷ m) (h, b) = (omega arith, Below-snoc n x m b)

  pub Below-spared :
      (n : ℕ) (m : Assoc ℕ T) (flags : List Bool) → Below n m → Below n (spared m flags)
  Below-spared n [] flags b = tt
  Below-spared n (e ∷ m) [] b = b
  Below-spared n (e ∷ m) (false ∷ flags) (h, b) = (h, Below-spared n m flags b)
  Below-spared n (e ∷ m) (true ∷ flags) (h, b) = Below-spared n m flags b

  pub values-append : (m n : Assoc ℕ T) → values (m ++ n) ≡ values m ++ values n
  values-append [] n = refl
  values-append ((id, x) ∷ m) n = ap (λ l. x ∷ l) (values-append m n)

  pub fired-spared :
      (m : Assoc ℕ T) (flags : List Bool)
      → Perm (values m) (fired m flags ++ values (spared m flags))
  fired-spared [] flags = Perm.rfl
  fired-spared (e ∷ m) [] = Perm.rfl
  fired-spared ((id, x) ∷ m) (false ∷ flags) =
      Perm.trans (Perm.cons x (fired-spared m flags))
        (Perm.symm (perm_middle (fired m flags) (values (spared m flags))))
  fired-spared ((id, x) ∷ m) (true ∷ flags) = Perm.cons x (fired-spared m flags)

  pub fired_none : (m : Assoc ℕ T) → fired m [] ≡ []
  fired_none [] = refl
  fired_none (e ∷ m) = refl

  pub spared_none : (m : Assoc ℕ T) → spared m [] ≡ m
  spared_none [] = refl
  spared_none (e ∷ m) = refl

  pub spared-IsDistinct :
      (before m : Assoc ℕ T) (flags : List Bool)
      → IsDistinct (before ++ m)
      → IsDistinct (before ++ spared m flags)
  spared-IsDistinct before [] flags d = d
  spared-IsDistinct before (e ∷ m) [] d = d
  spared-IsDistinct before (e ∷ m) (false ∷ flags) d =
      subst IsDistinct (append_assoc before (e ∷ []) (spared m flags)) (
        spared-IsDistinct (before ++ e ∷ []) m flags
          (subst IsDistinct (sym (append_assoc before (e ∷ []) m)) d))
  spared-IsDistinct before ((id, x) ∷ m) (true ∷ flags) d =
      spared-IsDistinct before m flags (rest-IsDistinct id x before m d)
