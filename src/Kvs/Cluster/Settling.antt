-- ===== src/Kvs/Cluster/Settling.antt =====
-- The threads of a server, when no more requests come.
use lattice_flow.Base.{
  ℕ, zero, suc, ◌+◌, ◌<◌, ◌≡◌, refl, ◌∙◌, ap, subst, true, false, List, [], ◌∷◌, ◌++◌, arith,
  nat_beq, nat_beq_iff, Bool-cases, inl, inr,
}
use lattice_flow.Lattices.Lattice.{eq}
use lattice_flow.Kvs.Server.{GossipData, database, num_threads}
use lattice_flow.Kvs.Cluster.{Cluster, Reach, next, receives, start, receive}
use lattice_flow.Std.Update.{update_self, update_other}
use lattice_flow.Kvs.Cluster.Convergence.{cluster_converges, start-Agrees, Reach-Agrees}

-- Runs in which threads only receive.
pub data Drain (c : Cluster) : Cluster → Type 0 where
  done : Drain c c
  also :
      {d : Cluster} (j : ℕ) (early late : List GossipData) (g : GossipData)
      → Drain c d
      → j < num_threads
      → d.subscribed j ≡ true
      → d.inbox j ≡ early ++ g ∷ late
      → Drain c (receive j g (early ++ late) d)

Reach-Drain : {b c d : Cluster} → Reach b c → Drain c d → Reach b d
Reach-Drain r done = r
Reach-Drain r (also j early late g s h b e) = next (Reach-Drain r s) (receives j early late g h b e)

Drain-trans : {b c d : Cluster} → Drain b c → Drain c d → Drain b d
Drain-trans r done = r
Drain-trans r (also j early late g s h b e) = also j early late g (Drain-trans r s) h b e

-- Nothing is dropped meanwhile.
Drain-lost : {c d : Cluster} → Drain c d → d.lost ≡ c.lost
Drain-lost done = refl
Drain-lost (also j early late g s h b e) = Drain-lost s

-- A thread that receives all that its inbox holds.
inbox_emptied :
    (j : ℕ) (gs : List GossipData) (c : Cluster)
    → j < num_threads
    → c.subscribed j ≡ true
    → c.inbox j ≡ gs
    → (d : Cluster) × Drain c d
      × (d.inbox j ≡ [])
      × ((k : ℕ) → nat_beq j k ≡ false → d.inbox k ≡ c.inbox k)
inbox_emptied j [] c h b e = (c, done, e, λ k n. refl)
inbox_emptied j (g ∷ gs) c h b e =
    let c1 = receive j g gs c in
    let (d, run, quiet, others) = inbox_emptied j gs c1 h b (update_self j gs c.inbox) in
    (
      d,
      Drain-trans (also j [] gs g done h b e) run,
      quiet,
      λ k n. others k n ∙ update_other j k gs c.inbox n,
    )

-- A thread that has not subscribed holds no gossip.
thread_emptied :
    (j : ℕ) (c : Cluster)
    → j < num_threads
    → (c.subscribed j ≡ false → c.inbox j ≡ [])
    → (d : Cluster) × Drain c d
      × (d.inbox j ≡ [])
      × ((k : ℕ) → nat_beq j k ≡ false → d.inbox k ≡ c.inbox k)
thread_emptied j c h unheard = elim (Bool-cases (c.subscribed j)) [
  | inl b ↦ inbox_emptied j (c.inbox j) c h b refl
  | inr b ↦ (c, done, unheard b, λ k n. refl)
]

all_emptied :
    (n : ℕ) (c : Cluster)
    → n < num_threads + 1
    → Reach start c
    → (d : Cluster) × Drain c d × ((k : ℕ) → k < n → d.inbox k ≡ [])
all_emptied zero c h r = (c, done, λ k less. absurd (omega arith))
all_emptied (suc n) c h r =
    let (d, run, below) = all_emptied n c (omega arith) r in
    let agrees = Reach-Agrees (Reach-Drain r run) start-Agrees in
    let (d1, run1, quiet, others) = thread_emptied n d (omega arith) (agrees.unheard n) in
    (
      d1,
      Drain-trans run run1,
      λ k less. elim (Bool-cases (nat_beq n k)) [
        | inl same ↦ subst (λ (i : ℕ). d1.inbox i ≡ []) ((nat_beq_iff n k).0 same) quiet
        | inr other ↦ others k other ∙ below k (ground (arith, nat_beq_iff n k))
      ],
    )

-- When no more requests come, a server comes to rest with its threads in agreement, unless a
-- publication was dropped: from every state of every run, steps in which threads only receive gossip
-- lead to one in which no gossip is left, nothing more was dropped, and any two threads have == databases
-- if nothing that was published for them had been dropped.
pub cluster_settles :
    (c : Cluster)
    → Reach start c
    → (d : Cluster) × Drain c d
      × ((i : ℕ) → i < num_threads → d.inbox i ≡ [])
      × (d.lost ≡ c.lost)
      × ((i j : ℕ)
          → i < num_threads
          → j < num_threads
          → c.lost i ≡ []
          → c.lost j ≡ []
          → eq database (d.threads i).kvs (d.threads j).kvs ≡ true)
cluster_settles c r =
    let (d, run, quiet) = all_emptied num_threads c (omega arith) r in
    let kept = Drain-lost run in
    (
      d,
      run,
      quiet,
      kept,
      λ i j hi hj li lj.
          cluster_converges d i j (Reach-Drain r run) hi hj (quiet i hi) (quiet j hj)
            (ap (λ f. f i) kept ∙ li) (ap (λ f. f j) kept ∙ lj),
    )
