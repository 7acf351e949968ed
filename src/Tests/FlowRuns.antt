-- ===== src/Tests/FlowRuns.antt =====
-- Operators over lists of numbers: src/flow.
use lattice_flow.Base.{ℕ, ◌%◌, List, [], ◌∷◌, arith, nat_eq, Bool, true, none, ◌==◌}
use lattice_flow.Flow.Operator.{Operator, Yields, iterator, iterator-Yields}
use lattice_flow.Flow.Coroutine.{Coroutine, coroutine_operator, coroutine_operator-Yields}

abbrev lefts : List ℕ
lefts = 12 ∷ 21 ∷ []

abbrev rights : List ℕ
rights = 42 ∷ 31 ∷ 2 ∷ []

abbrev digit : ℕ → ℕ
digit n = n % 10

abbrev marks : List ℕ
marks = 7 ∷ 8 ∷ []

-- The cross product of the right tuples and the marks, with any number of its tuples taken.
abbrev marked : Operator (Coroutine (List ℕ) (List ℕ) (ℕ × ℕ)) (ℕ × ℕ)
marked = coroutine_operator (iterator rights) (iterator marks) (λ r m. true) 13

marked-Yields :
    (s : Coroutine (List ℕ) (List ℕ) (ℕ × ℕ))
    → Yields marked (marked.reset s) ((42, 7) ∷ (42, 8) ∷ (31, 7) ∷ (31, 8) ∷ (2, 7) ∷ (2, 8) ∷ [])
marked-Yields s =
    coroutine_operator-Yields (iterator rights) (iterator marks) (λ r m. true) 13 marks
      (iterator-Yields marks) s rights (iterator-Yields rights s.left) (omega arith)

abbrev same_digit : ℕ → ℕ × ℕ → Bool
same_digit l r = digit l == digit r.0

-- An equijoin over that cross product.
abbrev joined :
    Operator (Coroutine (List ℕ) (Coroutine (List ℕ) (List ℕ) (ℕ × ℕ)) (ℕ × (ℕ × ℕ))) (ℕ × (ℕ × ℕ))
joined = coroutine_operator (iterator lefts) marked same_digit 17

abbrev not_started : Coroutine (List ℕ) (Coroutine (List ℕ) (List ℕ) (ℕ × ℕ)) (ℕ × (ℕ × ℕ))
not_started = record {
  left = [];
  right = record { left = []; right = []; current = none };
  current = none;
}

coroutine_operator-Yields_example : Yields joined (joined.reset not_started) (
    (12, (42, 7))
    ∷ (12, (42, 8))
    ∷ (12, (2, 7))
    ∷ (12, (2, 8))
    ∷ (21, (31, 7))
    ∷ (21, (31, 8))
    ∷ [])
coroutine_operator-Yields_example =
    coroutine_operator-Yields (iterator lefts) marked same_digit 17
      ((42, 7) ∷ (42, 8) ∷ (31, 7) ∷ (31, 8) ∷ (2, 7) ∷ (2, 8) ∷ []) marked-Yields not_started lefts
      (iterator-Yields lefts []) (omega arith)
