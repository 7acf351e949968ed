-- ===== src/Concurrency/Calls.antt =====
-- Runs of calls on a queue that threads share, in the order in which the calls get the mutex.
use mathlib.Core.List.{append_assoc, append-nil}
use lattice_flow.Base.{
  ◌≡◌, sym, ◌∙◌, ap, subst, Option, none, some, List, [], ◌∷◌, ◌++◌, arith, Option-cases, inl, inr,
}

-- One call by some thread.
pub data Call {ℓ} (T : Type ℓ) : Type ℓ where
  pushes : T → Call T
  pops : Call T
  tries : Call T
  clears : Call T

module _ {ℓ} {T : Type ℓ} where
  -- The values that a call pushes.
  abbrev pub pushed : Call T → List T
  pushed (pushes x) = x ∷ []
  pushed pops = []
  pushed tries = []
  pushed clears = []

  abbrev pub all_pushed : List (Call T) → List T
  all_pushed [] = []
  all_pushed (c ∷ cs) = pushed c ++ all_pushed cs

  abbrev pub IsClear : Call T → Type 0
  IsClear (pushes x) = ⊥
  IsClear pops = ⊥
  IsClear tries = ⊥
  IsClear clears = Unit

  abbrev pub NoClear : List (Call T) → Type 0
  NoClear [] = Unit
  NoClear (c ∷ cs) = (¬ IsClear c) × NoClear cs

module _ {ℓ κ} {T : Type ℓ} {S : Type κ} (step : Call T → S → Option (List T × S)) where
  -- The values that the calls take out, in order, and the queue after them. `step` gives the values
  -- that one call takes out and the queue after it; `none` means that a call would wait.
  unfoldable pub run : List (Call T) → S → Option (List T × S)
  run [] q = some ([], q)
  run (c ∷ cs) q = elim (step c q) [
    | none ↦ none
    | some (out, q') ↦ elim (run cs q') [ none ↦ none | some (rest, q'') ↦ some (out ++ rest, q'') ]
  ]

  abbrev Result : Type (ℓ ⊔ κ)
  Result = Option (List T × S)

  run_nil : (q r : S) (out : List T) → run [] q ≡ some (out, r) → ([] ≡ out) × (q ≡ r)
  unfolding run
  run_nil q r out h =
      let same : ([], q) ≡ (out, r) = ground arith in
      (ap (λ (p : List T × S). p.0) same, ap (λ (p : List T × S). p.1) same)

  run_cases :
      (c : Call T) (cs : List (Call T)) (q r : S) (out : List T)
      → run (c ∷ cs) q ≡ some (out, r)
      → (one : List T) × (rest : List T) × (p : S) × (step c q ≡ some (one, p))
        × (run cs p ≡ some (rest, r))
        × (out ≡ one ++ rest)
  unfolding run
  run_cases c cs q r out h = elim (Option-cases (step c q)) [
    | inl waits ↦ absurd (ground arith)
    | inr ((one, p), done) ↦ elim (Option-cases (run cs p)) [
      | inl waits ↦ absurd (ground arith)
      | inr ((rest, r'), ran) ↦ (one, rest, p, done, ground arith, ground arith)
    ]
  ]

  module _ (contents : S → List T)
      (step_fifo : (c : Call T) (q r : S) (out : List T)
        → (¬ IsClear c)
        → step c q ≡ some (out, r)
        → contents q ++ pushed c ≡ out ++ contents r) where
    -- If each call but a clear takes out values at one end and adds them at the other, so do runs.
    pub run_fifo :
        (cs : List (Call T)) (q r : S) (out : List T)
        → NoClear cs
        → run cs q ≡ some (out, r)
        → contents q ++ all_pushed cs ≡ out ++ contents r
    run_fifo [] q r out n h =
        let (none_out, same) = run_nil q r out h in
        append-nil (contents q) ∙ ap contents same ∙ ap (λ (l : List T). l ++ contents r) none_out
    run_fifo (c ∷ cs) q r out n h =
        let (one, rest, p, done, ran, split) = run_cases c cs q r out h in
        sym (append_assoc (contents q) (pushed c) (all_pushed cs))
        ∙ ap (λ (l : List T). l ++ all_pushed cs) (step_fifo c q p one n.0 done)
        ∙ append_assoc one (contents p) (all_pushed cs)
        ∙ ap (λ (l : List T). one ++ l) (run_fifo cs p r rest n.1 ran)
        ∙ sym (append_assoc one rest (contents r))
        ∙ ap (λ (l : List T). l ++ contents r) (sym split)

  -- What every call keeps, every run keeps.
  pub run_keeps {μ} :
      (P : S → Type μ)
      → ((c : Call T) (q r : S) (out : List T) → P q → step c q ≡ some (out, r) → P r)
      → (cs : List (Call T)) (q r : S) (out : List T) → P q
      → run cs q ≡ some (out, r)
      → P r
  run_keeps P keep [] q r out h e = subst P (run_nil q r out e).1 h
  run_keeps P keep (c ∷ cs) q r out h e =
      let (one, rest, p, done, ran, split) = run_cases c cs q r out e in
      run_keeps P keep cs p r rest (keep c q p one h done) ran
