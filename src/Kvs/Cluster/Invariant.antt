-- ===== src/Kvs/Cluster/Invariant.antt =====
-- What holds of a server's threads at every moment: with the gossip that each has yet to process, and
-- with what was dropped, all of them hold the same.
use mathlib.Core.List.Perm
use mathlib.Core.List.{Perm, perm_middle, map-append, append-nil, append_assoc}
use lattice_flow.Base.{
  ℕ, zero, suc, ◌<◌, ◌≡◌, refl, sym, ◌∙◌, subst, ap, Bool, true, false, not, Option, none, some,
  List, [], ◌∷◌, ◌++◌, map, arith, nat_beq, nat_beq_iff, Bool-cases, inl, inr, nat_eq,
}
use lattice_flow.Std.UnorderedSet.{contains}
use lattice_flow.Lattices.Lattice.{eq}
use lattice_flow.Lattices.Converge.{join_all, join_all-snoc, join_all_perm, join_all_cong}
use lattice_flow.Kvs.Server.{
  State, Database, GossipData, database, num_threads, receive_gossip, subscriptions,
}
use lattice_flow.Kvs.Server.Put.{database-IsLattice}
use lattice_flow.Kvs.Server.Gossip.{IsFlushed}
use lattice_flow.Kvs.Cluster.{Cluster, publish, process, receive, comes}
use lattice_flow.Kvs.Cluster.Published.{Added}
open database-IsLattice use {eq_refl, eq_sym, eq_trans}

abbrev pub dbs : List GossipData → List Database
dbs = map (λ (g : GossipData). g.db)

-- What a thread will hold when it has processed this gossip.
abbrev pub settled : State → List GossipData → Database
settled s gs = join_all database s.kvs (dbs gs)

-- All that was published for a thread and that it has not processed: in its inbox, or dropped.
abbrev pub due : Cluster → ℕ → List GossipData
due c i = c.inbox i ++ c.lost i

abbrev pub pending : Cluster → ℕ → Database
pending c i = settled (c.threads i) (due c i)

pub record Agrees (c : Cluster) : Type 0 where
  pub flushed : (i : ℕ) → IsFlushed (c.threads i)
  pub named : (i : ℕ) → (c.threads i).thread_id ≡ i
  pub unheard : (i : ℕ) → c.subscribed i ≡ false → c.inbox i ≡ []
  pub same :
      (i j : ℕ) → i < num_threads → j < num_threads → eq database (pending c i) (pending c j) ≡ true

-- Each thread is subscribed to the others.
pub subscribed :
    (i j : ℕ) → i < num_threads → j < num_threads → contains i (subscriptions j) ≡ not (nat_beq i j)
unfolding contains subscriptions
subscribed i zero h k = ground arith
subscribed i (suc zero) h k = ground arith
subscribed i (suc (suc zero)) h k = ground arith
subscribed i (suc (suc (suc zero))) h k = ground arith
subscribed i (suc (suc (suc (suc j)))) h k = absurd (omega arith)

-- A gossip at the end of the inbox is joined in last.
settled-snoc :
    (s : State) (gs : List GossipData) (g : GossipData)
    → settled s (gs ++ g ∷ []) ≡ database.join (settled s gs) g.db
settled-snoc s gs g =
    ap (join_all database s.kvs) (map-append (λ (h : GossipData). h.db) gs (g ∷ []))
    ∙ join_all-snoc database s.kvs g.db (dbs gs)

-- A thread that adds to its database and publishes what it adds, with its inbox as before.
settled-Added :
    (s t : State) (gs : List GossipData) (g : GossipData)
    → Added s.kvs (some g) t.kvs
    → eq database (settled t gs) (database.join (settled s gs) g.db) ≡ true
unfolding receive_gossip join_all
settled-Added s t gs g h =
    let xs = dbs gs in
    let last : Perm (g.db ∷ xs) (xs ++ g.db ∷ []) =
      subst (λ (l : List Database). Perm (g.db ∷ l) (xs ++ g.db ∷ [])) (append-nil xs)
        (Perm.symm (perm_middle xs [])) in
    eq_trans (settled t gs) (join_all database s.kvs (g.db ∷ xs))
      (database.join (settled s gs) g.db)
      (join_all_cong database database-IsLattice t.kvs (database.join s.kvs g.db) xs
        (eq_sym (database.join s.kvs g.db) t.kvs h))
      (subst (λ (m : Database). eq database (join_all database s.kvs (g.db ∷ xs)) m ≡ true)
        (join_all-snoc database s.kvs g.db xs)
        (join_all_perm database database-IsLattice s.kvs s.kvs (g.db ∷ xs) (xs ++ g.db ∷ [])
          (eq_refl s.kvs) last))

-- A gossip in the inbox is joined in as if it were the last.
settled-inbox :
    (s : State) (gs hs : List GossipData) (g : GossipData)
    → eq database (settled s ((gs ++ g ∷ []) ++ hs)) (database.join (settled s (gs ++ hs)) g.db)
      ≡ true
settled-inbox s gs hs g =
    let early : Perm ((gs ++ g ∷ []) ++ hs) (g ∷ (gs ++ hs)) =
      subst (λ l. Perm l (g ∷ (gs ++ hs))) (sym (append_assoc gs (g ∷ []) hs))
        (perm_middle gs hs) in
    let late : Perm ((gs ++ hs) ++ g ∷ []) (g ∷ (gs ++ hs)) =
      subst (λ l. Perm ((gs ++ hs) ++ g ∷ []) (g ∷ l)) (append-nil (gs ++ hs))
        (perm_middle (gs ++ hs) []) in
    subst (λ m. eq database (settled s ((gs ++ g ∷ []) ++ hs)) m ≡ true)
      (settled-snoc s (gs ++ hs) g)
      (join_all_perm database database-IsLattice s.kvs s.kvs (dbs ((gs ++ g ∷ []) ++ hs))
        (dbs ((gs ++ hs) ++ g ∷ [])) (eq_refl s.kvs)
        (Perm.map (λ (h : GossipData). h.db) (Perm.trans early (Perm.symm late))))

-- A dropped gossip is the last.
settled-lost :
    (s : State) (gs hs : List GossipData) (g : GossipData)
    → settled s (gs ++ (hs ++ g ∷ [])) ≡ database.join (settled s (gs ++ hs)) g.db
settled-lost s gs hs g =
    ap (settled s) (sym (append_assoc gs hs (g ∷ []))) ∙ settled-snoc s (gs ++ hs) g

-- A publication is pending at all threads, its sender included.
pub pending-publish :
    (c : Cluster) (i j : ℕ) (t : State) (g : GossipData) (taken : ℕ → Bool)
    → i < num_threads
    → j < num_threads
    → Added (c.threads i).kvs (some g) t.kvs
    → eq database (pending (process i t (some g) taken c) j) (database.join (pending c j) g.db)
      ≡ true
unfolding publish
pending-publish c i j t g taken h k added = elim (Bool-cases (nat_beq i j)) [
  | inl self ↦
      rw (subscribed i j h k, self)
        (settled-Added (c.threads j) t (due c j) g (
          subst (λ (n : ℕ). Added (c.threads n).kvs (some g) t.kvs) ((nat_beq_iff i j).0 self)
            added))
  | inr other ↦ elim (Bool-cases (comes taken c j)) [
    | inl came ↦
        rw (subscribed i j h k, other, came) (settled-inbox (c.threads j) (c.inbox j) (c.lost j) g)
    | inr dropped ↦
        rw (subscribed i j h k, other, dropped, settled-lost (c.threads j) (c.inbox j) (c.lost j) g)
          (eq_refl (database.join (pending c j) g.db))
  ]
]

-- The inbox of a thread that has not subscribed stays empty.
pub publish-unheard :
    (c : Cluster) (i j : ℕ) (sent : Option GossipData) (taken : ℕ → Bool)
    → c.subscribed j ≡ false
    → publish i sent (comes taken c) c.inbox j ≡ c.inbox j
unfolding publish
publish-unheard c i j none taken e = refl
publish-unheard c i j (some g) taken e = rw (publish, e) (ground arith)

-- A request that publishes nothing changes nothing that is pending.
pub pending-quiet :
    (c : Cluster) (i j : ℕ) (t : State) (taken : ℕ → Bool)
    → Added (c.threads i).kvs none t.kvs
    → pending (process i t none taken c) j ≡ pending c j
unfolding publish
pending-quiet c i j t taken same = elim (Bool-cases (nat_beq i j)) [
  | inl self ↦ rw self (
      ap (λ (m : Database). join_all database m (dbs (due c j)))
        (sym same ∙ ap (λ (n : ℕ). (c.threads n).kvs) ((nat_beq_iff i j).0 self)))
  | inr other ↦ rw other refl
]

-- To process a gossip changes what is pending only up to `==`.
pub pending-receive :
    (c : Cluster) (i j : ℕ) (early late : List GossipData) (g : GossipData)
    → c.inbox i ≡ early ++ g ∷ late
    → eq database (pending (receive i g (early ++ late) c) j) (pending c j) ≡ true
unfolding receive_gossip join_all
pending-receive c i j early late g e = elim (Bool-cases (nat_beq i j)) [
  | inl self ↦
      let at : i ≡ j = (nat_beq_iff i j).0 self in
      rw self (
        subst
          (λ (n : ℕ).
            eq database
              (join_all database (database.join (c.threads i).kvs g.db)
                (dbs ((early ++ late) ++ c.lost n)))
              (pending c n)
            ≡ true)
          at
          (subst
            (λ (gs : List GossipData).
              eq database
                (join_all database (c.threads i).kvs (dbs (g ∷ ((early ++ late) ++ c.lost i))))
                (join_all database (c.threads i).kvs (dbs (gs ++ c.lost i)))
              ≡ true)
            (sym e)
            (join_all_perm database database-IsLattice (c.threads i).kvs (c.threads i).kvs
              (dbs (g ∷ ((early ++ late) ++ c.lost i))) (dbs ((early ++ g ∷ late) ++ c.lost i))
              (eq_refl (c.threads i).kvs)
              (Perm.map (λ (h : GossipData). h.db)
                (Perm.symm (Perm.append_right (c.lost i) (perm_middle early late)))))))
  | inr other ↦ rw other (eq_refl (pending c j))
]
