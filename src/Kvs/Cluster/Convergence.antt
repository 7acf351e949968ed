-- ===== src/Kvs/Cluster/Convergence.antt =====
-- Every run of a server's threads keeps them in agreement on what was published.
use lattice_flow.Base.{
  ℕ, ◌<◌, ◌≡◌, refl, sym, ◌∙◌, subst, ap, Bool, true, false, arith, Option, none, some, List, [],
  ◌++◌, nat_beq, nat_beq_iff, Bool-cases, inl, inr,
}
use lattice_flow.Lattices.Lattice.{eq, le}
use lattice_flow.Lattices.Order
use lattice_flow.Lattices.Converge.{join_all, le-join_all}
use lattice_flow.Kvs.Server
use lattice_flow.Kvs.Server.{State, Database, GossipData, database, num_threads}
use lattice_flow.Kvs.Server.Put.{database-IsLattice}
use lattice_flow.Kvs.Server.Gossip.{IsFlushed}
use lattice_flow.Std.Update.{update, update_other}
use lattice_flow.Kvs.Cluster.{
  Cluster, Step, subscribes, processes, receives, Reach, here, next, start, process, receive, merge,
}
use lattice_flow.Kvs.Cluster.Published.{Added, process_request-Published}
use lattice_flow.Kvs.Cluster.Invariant.{
  Agrees, dbs, due, pending, pending-publish, publish-unheard, pending-quiet, pending-receive,
}
open database-IsLattice use {eq_refl, eq_sym, eq_trans}

update-All {ℓ κ} :
    {A : Type ℓ} (P : ℕ → A → Type κ) (i : ℕ) (a : A) (f : ℕ → A)
    → P i a
    → ((j : ℕ) → P j (f j))
    → (j : ℕ) → P j (update i a f j)
update-All P i a f h k j = elim (Bool-cases (nat_beq i j)) [
  | inl self ↦ rw self (subst (λ n. P n a) ((nat_beq_iff i j).0 self) h)
  | inr other ↦ rw other (k j)
]

pub start-Agrees : Agrees start
unfolding Server.init join_all
start-Agrees = record {
  flushed = λ i. record { no_changes = refl; no_updates = refl };
  named = λ i. refl;
  unheard = λ i e. refl;
  same = λ i j h k. eq_refl (pending start i);
}

-- What is pending at two threads stays equal if it grows by the same, or stays the same.
process-same :
    (c : Cluster) (i : ℕ) (t : State) (sent : Option GossipData) (taken : ℕ → Bool)
    → Agrees c
    → i < num_threads
    → Added (c.threads i).kvs sent t.kvs
    → (j k : ℕ) → j < num_threads
    → k < num_threads
    → eq database (pending (process i t sent taken c) j) (pending (process i t sent taken c) k)
      ≡ true
process-same c i t none taken a h added j k hj hk =
    rw (pending-quiet c i j t taken added, pending-quiet c i k t taken added) (a.same j k hj hk)
process-same c i t (some g) taken a h added j k hj hk =
    eq_trans (pending (process i t (some g) taken c) j) (database.join (pending c j) g.db)
      (pending (process i t (some g) taken c) k) (pending-publish c i j t g taken h hj added)
      (eq_trans (database.join (pending c j) g.db) (database.join (pending c k) g.db)
        (pending (process i t (some g) taken c) k)
        (Order.join_eq_left database database-IsLattice (pending c j) (pending c k) g.db
          (a.same j k hj hk))
        (eq_sym (pending (process i t (some g) taken c) k) (database.join (pending c k) g.db)
          (pending-publish c i k t g taken h hk added)))

subscribe-unheard :
    (c : Cluster) (i j : ℕ) → Agrees c → update i true c.subscribed j ≡ false → c.inbox j ≡ []
subscribe-unheard c i j a e = elim (Bool-cases (nat_beq i j)) [
  | inl self ↦ absurd (ground arith)
  | inr other ↦ a.unheard j (sym (update_other i j true c.subscribed other) ∙ e)
]

receive-unheard :
    (c : Cluster) (i j : ℕ) (rest : List GossipData)
    → Agrees c
    → c.subscribed i ≡ true
    → c.subscribed j ≡ false
    → update i rest c.inbox j ≡ []
receive-unheard c i j rest a h e = elim (Bool-cases (nat_beq i j)) [
  | inl self ↦
      let both : c.subscribed i ≡ c.subscribed j = ap c.subscribed ((nat_beq_iff i j).0 self) in
      absurd (ground arith)
  | inr other ↦ update_other i j rest c.inbox other ∙ a.unheard j e
]

pub Step-Agrees : {c d : Cluster} → Step c d → Agrees c → Agrees d
Step-Agrees {c} (subscribes i h) a = record {
  flushed = a.flushed;
  named = a.named;
  unheard = λ j e. subscribe-unheard c i j a e;
  same = a.same;
}
Step-Agrees {c} (processes i request t response sent taken h sub run) a =
    let p = process_request-Published request (c.threads i) t response sent (a.flushed i) run in
    record {
      flushed = update-All (λ j s. IsFlushed s) i t c.threads p.flushed a.flushed;
      named =
          update-All (λ (j : ℕ) (s : State). s.thread_id ≡ j) i t c.threads (p.thread ∙ a.named i)
            a.named;
      unheard = λ j e. publish-unheard c i j sent taken e ∙ a.unheard j e;
      same = process-same c i t sent taken a h p.added;
    }
Step-Agrees {c} (receives i early late g h sub e) a = record {
  flushed =
      update-All (λ j s. IsFlushed s) i (merge g (c.threads i)) c.threads
        (record { no_changes = (a.flushed i).no_changes; no_updates = (a.flushed i).no_updates })
        a.flushed;
  named =
      update-All (λ (j : ℕ) (s : State). s.thread_id ≡ j) i (merge g (c.threads i)) c.threads
        (a.named i) a.named;
  unheard = λ j f. receive-unheard c i j (early ++ late) a sub f;
  same = λ j k hj hk.
      let d = receive i g (early ++ late) c in
      eq_trans (pending d j) (pending c j) (pending d k) (pending-receive c i j early late g e) (
        eq_trans (pending c j) (pending c k) (pending d k) (a.same j k hj hk)
          (eq_sym (pending d k) (pending c k) (pending-receive c i k early late g e)));
}

pub Reach-Agrees : {c d : Cluster} → Reach c d → Agrees c → Agrees d
Reach-Agrees here a = a
Reach-Agrees (next r st) a = Step-Agrees st (Reach-Agrees r a)

-- What is pending only grows.
Step-le :
    {c d : Cluster}
    → Step c d
    → Agrees c
    → (j : ℕ) → j < num_threads
    → le database (pending c j) (pending d j) ≡ true
Step-le {c} (subscribes i h) a j hj = Order.le_refl database database-IsLattice (pending c j)
Step-le {c} (processes i request t response none taken h sub run) a j hj =
    let p = process_request-Published request (c.threads i) t response none (a.flushed i) run in
    rw (pending-quiet c i j t taken p.added)
      (Order.le_refl database database-IsLattice (pending c j))
Step-le {c} (processes i request t response (some g) taken h sub run) a j hj =
    let p = process_request-Published request (c.threads i) t response (some g) (a.flushed i) run in
    let d = process i t (some g) taken c in
    Order.le_trans database database-IsLattice (pending c j) (database.join (pending c j) g.db)
      (pending d j) (Order.le-join_left database database-IsLattice (pending c j) g.db)
      (Order.le_of_eq database database-IsLattice (database.join (pending c j) g.db) (pending d j) (
        eq_sym (pending d j) (database.join (pending c j) g.db)
          (pending-publish c i j t g taken h hj p.added)))
Step-le {c} (receives i early late g h sub e) a j hj =
    let d = receive i g (early ++ late) c in
    Order.le_of_eq database database-IsLattice (pending c j) (pending d j)
      (eq_sym (pending d j) (pending c j) (pending-receive c i j early late g e))

Reach-le :
    {c d : Cluster}
    → Reach c d
    → Agrees c
    → (j : ℕ) → j < num_threads
    → le database (pending c j) (pending d j) ≡ true
Reach-le {c} here a j hj = Order.le_refl database database-IsLattice (pending c j)
Reach-le {c} {d} (next {d = e} r st) a j hj =
    Order.le_trans database database-IsLattice (pending c j) (pending e j) (pending d j)
      (Reach-le r a j hj) (Step-le st (Reach-Agrees r a) j hj)

pending-empty :
    (c : Cluster) (j : ℕ) → c.inbox j ≡ [] → c.lost j ≡ [] → pending c j ≡ (c.threads j).kvs
unfolding join_all
pending-empty c j e f =
    ap (λ (gs : List GossipData). join_all database (c.threads j).kvs (dbs gs))
      (ap (λ gs. gs ++ c.lost j) e ∙ f)

-- Convergence: in every run of a server's threads, whatever requests they get and in whatever order
-- they subscribe and gossip arrives, two threads hold == databases if neither has gossip left to
-- process, and nothing that was published for them was dropped.
pub cluster_converges :
    (c : Cluster) (i j : ℕ)
    → Reach start c
    → i < num_threads
    → j < num_threads
    → c.inbox i ≡ []
    → c.inbox j ≡ []
    → c.lost i ≡ []
    → c.lost j ≡ []
    → eq database (c.threads i).kvs (c.threads j).kvs ≡ true
cluster_converges c i j r hi hj ei ej li lj =
    subst (λ (m : Database). eq database m (c.threads j).kvs ≡ true) (pending-empty c i ei li)
      (subst (λ (m : Database). eq database (pending c i) m ≡ true) (pending-empty c j ej lj)
        ((Reach-Agrees r start-Agrees).same i j hi hj))

-- What a thread holds at some moment of a run is below what any thread holds at any later moment at
-- which that thread has no gossip left to process, if nothing that was published for it up to then was
-- dropped.
pub updates_arrive :
    (c d : Cluster) (i j : ℕ)
    → Reach start c
    → Reach c d
    → i < num_threads
    → j < num_threads
    → d.inbox j ≡ []
    → d.lost j ≡ []
    → le database (c.threads i).kvs (d.threads j).kvs ≡ true
updates_arrive c d i j r s hi hj ej lj =
    let a = Reach-Agrees r start-Agrees in
    let le_trans = Order.le_trans database database-IsLattice in
    le_trans (c.threads i).kvs (pending c i) (d.threads j).kvs
      (le-join_all database database-IsLattice (c.threads i).kvs (dbs (due c i)))
      (le_trans (pending c i) (pending c j) (d.threads j).kvs
        (Order.le_of_eq database database-IsLattice (pending c i) (pending c j) (a.same i j hi hj))
        (subst (λ (m : Database). le database (pending c j) m ≡ true) (pending-empty d j ej lj)
          (Reach-le s a j hj)))
