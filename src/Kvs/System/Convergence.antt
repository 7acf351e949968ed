-- ===== src/Kvs/System/Convergence.antt =====
-- The threads of src/key_value_stores/server.cc on their sockets, as the steps of Kvs.Cluster.
use mathlib.Core.List.{append-nil}
use lattice_flow.Base.{
  ℕ, ◌<◌, ◌≡◌, refl, sym, ◌∙◌, ap, subst, Bool, true, false, not, ◌&&◌, List, [], ◌++◌, arith,
  nat_beq, nat_beq_iff, nat_eq, if◌then◌else◌, Bool-cases, inl, inr,
}
use lattice_flow.Std.UnorderedSet.{contains}
use lattice_flow.Std.Update.{update}
use lattice_flow.Zmq.Proto.{Codec, send_proto}
use lattice_flow.Lattices.Lattice.{eq}
use lattice_flow.Kvs.Message.{Request, Response}
use lattice_flow.Kvs.Server.{GossipData, database, num_threads, subscriptions}
use lattice_flow.Kvs.Cluster
use lattice_flow.Kvs.Cluster.{Cluster, Reach, here, next, start, subscribe, comes}
use lattice_flow.Kvs.Cluster.Invariant.{subscribed}
use lattice_flow.Kvs.Cluster.Convergence.{cluster_converges, start-Agrees}
use lattice_flow.Kvs.Server.Gossip.{IsFlushed}
use lattice_flow.Kvs.Worker.{Worker}
use lattice_flow.Kvs.Worker.Moves.{IsAt, Moves, Reach-trans, arrived}
use lattice_flow.Kvs.Worker.Turns.{worker_turn-Moves}
use lattice_flow.Kvs.System.{
  System, new_system, with_worker, subscribe_thread, reaches, deliver_from, asks, answers,
  subscribes, turns, Run, begins, goes_on,
}

module _ (𝓻 : Codec Request) (𝓼 : Codec Response) where
  record Shows (s : System) (c : Cluster) : Type 0 where
    at : (k : ℕ) → k < num_threads → IsAt k (s.workers k) c
    nothing_held : (k : ℕ) → k < num_threads → (s.workers k).publisher ≡ []
    listening : s.subscribed ≡ c.subscribed
    dropped : (k : ℕ) → k < num_threads → s.lost k ≡ c.lost k

  -- A thread whose state and gossip are the same.
  IsAt-same :
      (k : ℕ) (w v : Worker) (c : Cluster)
      → v.state ≡ w.state
      → v.subscriber ≡ w.subscriber
      → IsAt k w c
      → IsAt k v c
  IsAt-same k w v c s u h = record {
    state_at = h.state_at ∙ sym s;
    inbox_at = h.inbox_at ∙ sym u;
    flushed = subst IsFlushed (sym s) h.flushed;
    named = ap (λ t. t.thread_id) s ∙ h.named;
  }

  same_number : (j k : ℕ) → nat_beq j k ≡ true → j ≡ k
  same_number j k e = ground arith

  -- A change of the two other sockets of a thread.
  with_worker-Shows :
      (j : ℕ) (v : Worker) (s : System) (c : Cluster)
      → v.state ≡ (s.workers j).state
      → v.subscriber ≡ (s.workers j).subscriber
      → v.publisher ≡ (s.workers j).publisher
      → Shows s c
      → Shows (with_worker j v s) c
  with_worker-Shows j v s c e u p h = record {
    at = λ k l. elim (Bool-cases (nat_beq j k)) [
      | inl b ↦
          let same = same_number j k b in
          rw b (
            IsAt-same k (s.workers k) v c (e ∙ ap (λ m. (s.workers m).state) same)
              (u ∙ ap (λ m. (s.workers m).subscriber) same) (h.at k l))
      | inr b ↦ rw b (h.at k l)
    ];
    nothing_held = λ k l. elim (Bool-cases (nat_beq j k)) [
      | inl b ↦
          rw b (p ∙ ap (λ m. (s.workers m).publisher) (same_number j k b) ∙ h.nothing_held k l)
      | inr b ↦ rw b (h.nothing_held k l)
    ];
    listening = h.listening;
    dropped = h.dropped;
  }

  subscribe_thread-Shows :
      (j : ℕ) (s : System) (c : Cluster) → Shows s c → Shows (subscribe_thread j s) (subscribe j c)
  subscribe_thread-Shows j s c h = record {
    at = λ k l. record {
      state_at = (h.at k l).state_at;
      inbox_at = (h.at k l).inbox_at;
      flushed = (h.at k l).flushed;
      named = (h.at k l).named;
    };
    nothing_held = h.nothing_held;
    listening = ap (update j true) h.listening;
    dropped = h.dropped;
  }

  -- What is published for another thread is added where it comes, or is dropped.
  published_for :
      (j k : ℕ) (b : Bool) (gossip sent : List GossipData)
      → j < num_threads
      → k < num_threads
      → nat_beq j k ≡ false
      → (if contains j (subscriptions k) && b then gossip ++ sent else gossip)
        ≡ gossip ++ arrived b sent
  published_for j k true gossip sent l n e = rw (subscribed j k l n, e) refl
  published_for j k false gossip sent l n e = rw (subscribed j k l n, e) (sym (append-nil gossip))

  published_for_self :
      (j : ℕ) (b : Bool) (gossip sent : List GossipData)
      → j < num_threads
      → (if contains j (subscriptions j) && b then gossip ++ sent else gossip) ≡ gossip
  published_for_self j b gossip sent l = rw (subscribed j j l l, (nat_beq_iff j j).1 refl) refl

  -- A turn, and what is published in it.
  deliver_from-Shows :
      (taken : ℕ → Bool) (j : ℕ) (v : Worker) (s : System) (c d : Cluster)
      → j < num_threads
      → Shows s c
      → Moves taken j (s.workers j) c v d
      → Shows (deliver_from taken j v s) d
  deliver_from-Shows taken j v s c d l h m =
      let sent : v.publisher ≡ m.sent = m.sent_by ∙ ap (λ gs. gs ++ m.sent) (h.nothing_held j l) in
      let came : (k : ℕ) → reaches taken s k ≡ comes taken c k =
        λ k. ap (λ f. f k && taken k) h.listening in
      record {
        at = λ k n. elim (Bool-cases (nat_beq j k)) [
          | inl e ↦ rw e (
              subst (λ i. IsAt i (record v { publisher = [] }) d) (same_number j k e)
                (IsAt-same j v (record v { publisher = [] }) d refl refl m.at))
          | inr e ↦ rw e (record {
            state_at = m.others k e ∙ (h.at k n).state_at;
            inbox_at =
                m.sent_to k n e
                ∙ ap (λ gs. gs ++ arrived (comes taken c k) m.sent) (h.at k n).inbox_at
                ∙ ap (λ gs. (s.workers k).subscriber ++ arrived (comes taken c k) gs) (sym sent)
                ∙ ap (λ b. (s.workers k).subscriber ++ arrived b v.publisher) (sym (came k))
                ∙ sym (
                    published_for j k (reaches taken s k) (s.workers k).subscriber v.publisher l n
                      e);
            flushed = (h.at k n).flushed;
            named = (h.at k n).named;
          })
        ];
        nothing_held = λ k n. elim (Bool-cases (nat_beq j k)) [
          | inl e ↦ rw e refl
          | inr e ↦ rw e (h.nothing_held k n)
        ];
        listening = h.listening ∙ sym m.listening;
        dropped = λ k n. elim (Bool-cases (nat_beq j k)) [
          | inl e ↦
              subst (λ i. (deliver_from taken j v s).lost i ≡ d.lost i) (same_number j k e)
                (published_for_self j (not (reaches taken s j)) (s.lost j) v.publisher l
                  ∙ h.dropped j l
                  ∙ sym m.own_lost)
          | inr e ↦
              published_for j k (not (reaches taken s k)) (s.lost k) v.publisher l n e
              ∙ ap (λ b. s.lost k ++ arrived (not b) v.publisher) (came k)
              ∙ ap (λ gs. s.lost k ++ arrived (not (comes taken c k)) gs) sent
              ∙ ap (λ gs. gs ++ arrived (not (comes taken c k)) m.sent) (h.dropped k n)
              ∙ sym (m.dropped_for k n e)
        ];
      }

  new_system-Shows : Shows new_system start
  new_system-Shows = record {
    at = λ k l. record {
      state_at = refl;
      inbox_at = refl;
      flushed = start-Agrees.flushed k;
      named = start-Agrees.named k;
    };
    nothing_held = λ k l. refl;
    listening = refl;
    dropped = λ k l. refl;
  }

  Run-Shows : (s : System) → Run 𝓻 𝓼 s → (c : Cluster) × Reach start c × Shows s c
  Run-Shows s begins = (start, here, new_system-Shows)
  Run-Shows _ (goes_on {s} r (asks j request)) =
      let (c, g, h) = Run-Shows s r in
      let w = s.workers j in
      (
        c,
        g,
        with_worker-Shows j (record w { responder = send_proto 𝓻 request w.responder }) s c refl
            refl refl h,
      )
  Run-Shows _ (goes_on {s} r (answers j response rest e)) =
      let (c, g, h) = Run-Shows s r in
      (c, g, with_worker-Shows j (record (s.workers j) { replies = rest }) s c refl refl refl h)
  Run-Shows _ (goes_on {s} r (subscribes j l)) =
      let (c, g, h) = Run-Shows s r in
      (subscribe j c, next g (Cluster.subscribes j l), subscribe_thread-Shows j s c h)
  Run-Shows _ (goes_on {s} r (turns taken j a b v l sub k p q e)) =
      let (c, g, h) = Run-Shows s r in
      let (u, d, ran, m) =
        worker_turn-Moves 𝓻 𝓼 taken a b j c (s.workers j) l (ap (λ f. f j) (sym h.listening) ∙ sub)
          (h.at j l) k p q in
      let same : u ≡ v = ground arith in
      (
        d,
        Reach-trans g m.reached,
        deliver_from-Shows taken j v s c d l h
            (subst (λ x. Moves taken j (s.workers j) c x d) same m),
      )

  -- Convergence over the wire: in every run of the drivers of all threads on their sockets, whatever
  -- clients send, whenever they receive, and whenever the threads subscribe, two threads hold ==
  -- databases if no gossip is left in their subscriber sockets, and nothing that was published for them
  -- was dropped. Each turn of the run begins with a transaction timestamp that is an `int`, and its flags
  -- say only of messages that are there that they are.
  pub system_converges :
      (s : System) (i j : ℕ)
      → Run 𝓻 𝓼 s
      → i < num_threads
      → j < num_threads
      → (s.workers i).subscriber ≡ []
      → (s.workers j).subscriber ≡ []
      → s.lost i ≡ []
      → s.lost j ≡ []
      → eq database (s.workers i).state.kvs (s.workers j).state.kvs ≡ true
  system_converges s i j r hi hj ei ej li lj =
      let (c, g, h) = Run-Shows s r in
      rw⁻¹ ((h.at i hi).state_at, (h.at j hj).state_at)
        (cluster_converges c i j g hi hj ((h.at i hi).inbox_at ∙ ei) ((h.at j hj).inbox_at ∙ ej)
          (sym (h.dropped i hi) ∙ li) (sym (h.dropped j hj) ∙ lj))
