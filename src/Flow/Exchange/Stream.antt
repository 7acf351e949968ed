-- ===== src/Flow/Exchange/Stream.antt =====
-- What the owner of an exchange is given, in every interleaving with the thread of the child.
use lattice_flow.Base.{
  ℕ, suc, ◌+◌, ◌≤◌, ◌<◌, ◌≡◌, refl, ap, Option, none, some, List, [], ◌∷◌, ◌++◌, arith, nat_beq,
  if◌then◌else◌,
}
use lattice_flow.Flow.Exchange.{
  Signal, reset_signal, die, Place, reading, polling, clearing, waiting, exited,
}

module _ {κ} {T : Type κ} where
  -- The answers that are due for these tuples.
  abbrev pub stream : List T → List (Option T)
  stream [] = none ∷ []
  stream (x ∷ xs) = some x ∷ stream xs

  -- The values of a buffer that bear a stamp.
  abbrev pub stamped : ℕ → List (ℕ × Option T) → List (Option T)
  stamped n [] = []
  stamped n ((stamp, t) ∷ rest) =
      let others = stamped n rest in if nat_beq stamp n then t ∷ others else others

  abbrev pub Until : ℕ → List (ℕ × Option T) → Type 0
  Until n [] = Unit
  Until n ((stamp, t) ∷ rest) = (stamp ≤ n) × Until n rest

  pub stamped-Until : (m n : ℕ) (xs : List (ℕ × Option T)) → Until m xs → m < n → stamped n xs ≡ []
  stamped-Until m n [] u h = refl
  stamped-Until m n ((stamp, t) ∷ rest) (le, u) h = ground (arith, stamped-Until m n rest u h)

  pub stamped-snoc :
      (n : ℕ) (t : Option T) (xs : List (ℕ × Option T))
      → stamped n (xs ++ (n, t) ∷ []) ≡ stamped n xs ++ t ∷ []
  stamped-snoc n t [] = ground arith
  stamped-snoc n t ((stamp, u) ∷ rest) = ground (arith, stamped-snoc n t rest)

  pub Until-snoc :
      (n : ℕ) (t : Option T) (xs : List (ℕ × Option T)) → Until n xs → Until n (xs ++ (n, t) ∷ [])
  Until-snoc n t [] u = (omega arith, tt)
  Until-snoc n t ((stamp, x) ∷ rest) (le, u) = (le, Until-snoc n t rest u)

  pub Until-suc : (n : ℕ) (xs : List (ℕ × Option T)) → Until n xs → Until (n + 1) xs
  Until-suc n [] u = tt
  Until-suc n ((stamp, x) ∷ rest) (le, u) = (omega arith, Until-suc n rest u)

-- The resets among the signals, and the one that the thread has taken and not yet counted.
abbrev pub sent : List Signal → ℕ
sent [] = 0
sent (reset_signal ∷ xs) = suc (sent xs)
sent (die ∷ xs) = sent xs

abbrev pub taken : Place → ℕ
taken reading = 0
taken polling = 0
taken clearing = 1
taken waiting = 0
taken exited = 0

abbrev pub IsLive : Place → Type 0
IsLive reading = Unit
IsLive polling = Unit
IsLive clearing = ⊥
IsLive waiting = ⊥
IsLive exited = ⊥

abbrev pub IsAtEnd : Place → Type 0
IsAtEnd reading = ⊥
IsAtEnd polling = ⊥
IsAtEnd clearing = ⊥
IsAtEnd waiting = Unit
IsAtEnd exited = ⊥

pub sent_reset : (xs : List Signal) → sent (xs ++ reset_signal ∷ []) ≡ suc (sent xs)
sent_reset [] = refl
sent_reset (reset_signal ∷ xs) = ap suc (sent_reset xs)
sent_reset (die ∷ xs) = sent_reset xs

pub sent_die : (xs : List Signal) → sent (xs ++ die ∷ []) ≡ sent xs
sent_die [] = refl
sent_die (reset_signal ∷ xs) = ap suc (sent_die xs)
sent_die (die ∷ xs) = sent_die xs
