-- ===== src/PushPull/RoundRobin.antt =====
-- src/pushpull/round_robin.h.
use mathlib.Core.List.{append_assoc, append-nil}
use native.Mathlib.Nat.{mod-lt, mod-add-mod, add-zero}
use lattice_flow.Base.{
  ℕ, zero, suc, ◌+◌, ◌%◌, ◌<◌, ◌≡◌, refl, Option, none, some, List, [], ◌∷◌, arith, ltb, length,
  get_elem?, if◌then◌else◌, ap, ◌∙◌, sym, ◌++◌,
}
use lattice_flow.PushPull.Element.{Pusher, Puller}
use lattice_flow.PushPull.Branch.{tagged}

-- `index_`, and what the neighbours keep.
pub record RoundRobin {ℓ} (S : Type ℓ) : Type ℓ where
  pub index : ℕ
  pub neighbours : S

module _ {ℓ κ} {T : Type ℓ} {S : Type κ} where
  -- `none` is an index outside of the vector.
  unfoldable pub push : List (Pusher T S) → T → RoundRobin S → Option (RoundRobin S)
  push downstreams x r =
      if ltb 0 (length downstreams)
      then elim (get_elem? downstreams r.index) [
        | none ↦ none
        | some d ↦
            some
              (record { index = (r.index + 1) % length downstreams; neighbours = d x r.neighbours })
      ]
      else some r

  unfoldable pub pull : List (Puller T S) → RoundRobin S → Option (Option T × RoundRobin S)
  pull upstreams r =
      if ltb 0 (length upstreams)
      then elim (get_elem? upstreams r.index) [
        | none ↦ none
        | some u ↦
            let (x, s) = u r.neighbours in
            some (x, record { index = (r.index + 1) % length upstreams; neighbours = s })
      ]
      else some (none, r)

module _ {ℓ κ} {T : Type ℓ} {S : Type κ} where
  -- One push after another.
  unfoldable pub push_each : List (Pusher T S) → List T → RoundRobin S → Option (RoundRobin S)
  push_each downstreams [] r = some r
  push_each downstreams (x ∷ xs) r = elim (push downstreams x r) [
    | none ↦ none
    | some s ↦ push_each downstreams xs s
  ]

length-tagged {ℓ} : (T : Type ℓ) (i n : ℕ) → length (tagged {T = T} i n) ≡ n
length-tagged T i zero = refl
length-tagged T i (suc n) = ap suc (length-tagged T (i + 1) n)

count_one : (i k : ℕ) → i + 1 + k ≡ i + suc k
count_one i k = omega arith

next_index : (n i : ℕ) → (i % n + 1) % n ≡ (i + 1) % n
next_index n i = mod-add-mod i n 1

module _ {ℓ} {T : Type ℓ} where
  get-tagged :
      (i n k : ℕ)
      → k < n
      → get_elem? (tagged {T = T} i n) k ≡ some (λ x log. log ++ (i + k, x) ∷ [])
  get-tagged i zero k h = absurd (omega arith)
  get-tagged i (suc n) zero h = λ j. some (λ x log. log ++ (sym (add-zero i) j, x) ∷ [])
  get-tagged i (suc n) (suc k) h =
      get-tagged (i + 1) n k (omega arith) ∙ (λ j. some (λ x log. log ++ (count_one i k j, x) ∷ []))

  push-tagged :
      (n : ℕ) (x : T) (r : RoundRobin (List (ℕ × T)))
      → r.index < n
      → push (tagged 0 n) x r
        ≡ some
            (record { index = (r.index + 1) % n; neighbours = r.neighbours ++ (r.index, x) ∷ [] })
  unfolding push
  push-tagged n x r h = ground (arith, length-tagged T 0 n, get-tagged 0 n r.index h)

  -- The k-th value counted from i, with the number of the element that gets it.
  abbrev pub dealt : ℕ → ℕ → List T → List (ℕ × T)
  dealt n i [] = []
  dealt n i (x ∷ xs) = (i % n, x) ∷ dealt n (i + 1) xs

  -- A round robin over at least one downstream element, with its index in range, never reads out of
  -- bounds. Of the values pushed, each goes to one element: the k-th to the element k places after the
  -- index, counted round the vector.
  pub push_each-push :
      (n i : ℕ) (xs : List T) (r : RoundRobin (List (ℕ × T)))
      → 0 < n
      → r.index ≡ i % n
      → push_each (tagged 0 n) xs r
        ≡ some (record { index = (i + length xs) % n; neighbours = r.neighbours ++ dealt n i xs })
  unfolding push_each
  push_each-push n i [] r h e = λ j. some (record {
    index = (e ∙ ap (λ (k : ℕ). k % n) (sym (add-zero i))) j;
    neighbours = sym (append-nil r.neighbours) j;
  })
  push_each-push n i (x ∷ xs) r h e =
      let s : RoundRobin (List (ℕ × T)) = record {
        index = (r.index + 1) % n;
        neighbours = r.neighbours ++ (r.index, x) ∷ [];
      } in
      rw (push-tagged n x r (rw e (mod-lt i h)), push_each)
        (push_each-push n (i + 1) xs s h (rw e (next_index n i)) ∙ λ j. some (record {
          index = ap (λ (k : ℕ). k % n) (count_one i (length xs)) j;
          neighbours =
              (append_assoc r.neighbours ((r.index, x) ∷ []) (dealt n (i + 1) xs)
                  ∙ ap (λ (k : ℕ). r.neighbours ++ (k, x) ∷ dealt n (i + 1) xs) e)
                j;
        }))
