-- ===== src/Kvs/Client/Session/Runs.antt =====
-- Sessions: what every command of one keeps, the whole of it keeps.
use lattice_flow.Base.{◌≡◌, subst, ap, some, List, [], ◌∷◌, arith, Option-cases, inl, inr}
use lattice_flow.Std.Lexicographic.{Bytes}
use lattice_flow.Kvs.Client.{Client, Command, Line, execute, parse, repl}

-- Every line is a command of this kind.
abbrev pub All {ℓ} : (Command → Type ℓ) → List Bytes → Type ℓ
All P [] = Unit
All P (input ∷ inputs) = P (parse input) × All P inputs

module _ {C S : Type 0} (client : Client C S) where
  repl_nil :
      (c c' : C) (s s' : S) (out : List Line)
      → repl client [] c s ≡ some (out, c', s')
      → (c ≡ c') × (s ≡ s')
  unfolding repl
  repl_nil c c' s s' out h =
      let same : ([], c, s) ≡ (out, c', s') = ground arith in
      (ap (λ (r : List Line × C × S). r.1) same, ap (λ (r : List Line × C × S). r.2) same)

  repl_cons :
      (input : Bytes) (inputs : List Bytes) (c c'' : C) (s s'' : S) (out : List Line)
      → repl client (input ∷ inputs) c s ≡ some (out, c'', s'')
      → (one : List Line) × (rest : List Line) × (c' : C) × (s' : S) × (execute client input
            (parse input)
            c
            s
          ≡ some (one, c', s'))
        × (repl client inputs c' s' ≡ some (rest, c'', s''))
  unfolding repl
  repl_cons input inputs c c'' s s'' out h =
      elim (Option-cases (execute client input (parse input) c s)) [
        | inl waits ↦ absurd (ground arith)
        | inr ((one, c', s'), done) ↦ elim (Option-cases (repl client inputs c' s')) [
          | inl waits ↦ absurd (ground arith)
          | inr ((rest, c1, s1), ran) ↦ (one, rest, c', s', done, ground arith)
        ]
      ]

  pub repl_keeps {ℓ κ} :
      (Kind : Command → Type ℓ) (Keeps : C → S → Type κ)
      → ((command : Command) (input : Bytes) (c c' : C) (s s' : S) (out : List Line)
          → Kind command
          → Keeps c s
          → execute client input command c s ≡ some (out, c', s')
          → Keeps c' s')
      → (inputs : List Bytes) (c c' : C) (s s' : S) (out : List Line) → All Kind inputs
      → Keeps c s
      → repl client inputs c s ≡ some (out, c', s')
      → Keeps c' s'
  repl_keeps Kind Keeps step [] c c' s s' out a h run =
      let (ec, es) = repl_nil c c' s s' out run in
      subst (Keeps c') es (subst (λ (d : C). Keeps d s) ec h)
  repl_keeps Kind Keeps step (input ∷ inputs) c c'' s s'' out (a, more) h run =
      let (one, rest, c', s', done, ran) = repl_cons input inputs c c'' s s'' out run in
      repl_keeps Kind Keeps step inputs c' c'' s' s'' rest more
        (step (parse input) input c c' s s' one a h done) ran
