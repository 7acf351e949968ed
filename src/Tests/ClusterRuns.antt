-- ===== src/Tests/ClusterRuns.antt =====
-- A run of the threads of a server: src/key_value_stores/server.cc.
use lattice_flow.Base.{ℕ, ◌<◌, ◌≡◌, refl, Bool, true, [], ◌∷◌, some, arith, pos}
use lattice_flow.Lattices.Lattice.{eq, le}
use lattice_flow.Std.UnorderedSet.{contains}
use lattice_flow.Kvs.Message.{Key, Value, put}
use lattice_flow.Kvs.Server
use lattice_flow.Kvs.Server.{
  State, GossipData, database, num_threads, process_request, put_pairs, subscriptions, succeeded,
}
use lattice_flow.Kvs.Server.Gossip.{IsFlushed, Sent, process_request-put}
use lattice_flow.Kvs.Cluster.{
  Cluster, start, publish, process, receive, subscribe, Reach, here, next, subscribes, processes,
  receives,
}
use lattice_flow.Kvs.Cluster.Settling.{Drain, cluster_settles}
use lattice_flow.Kvs.Cluster.Convergence.{cluster_converges, updates_arrive}

abbrev k1 : Key
k1 = 97 ∷ []

abbrev v1 : Value
v1 = 120 ∷ []

thread_0-IsFlushed : IsFlushed (start.threads 0)
unfolding Server.init
thread_0-IsFlushed = record { no_changes = refl; no_updates = refl }

-- All threads subscribe.
abbrev listening : Cluster
listening = subscribe 3 (subscribe 2 (subscribe 1 (subscribe 0 start)))

Reach-listening : Reach start listening
Reach-listening =
    next
      (next (next (next here (subscribes 0 (omega arith))) (subscribes 1 (omega arith)))
        (subscribes 2 (omega arith)))
      (subscribes 3 (omega arith))

-- Thread 0 processes a put.
abbrev stored :
    (t : State) × (g : GossipData) × (process_request
        (put (pos 7) ((k1, v1) ∷ []))
        (start.threads 0)
      ≡ some (t, succeeded, some g))
    × Sent ((k1, v1) ∷ []) (put_pairs (pos 7) ((k1, v1) ∷ []) (start.threads 0)) t g
stored = process_request-put (pos 7) (k1, v1) [] (start.threads 0) thread_0-IsFlushed

abbrev all_taken : ℕ → Bool
all_taken j = true

abbrev published : Cluster
published = process 0 stored.0 (some stored.1) all_taken listening

-- Thread 1 receives its gossip.
abbrev received : Cluster
received = receive 1 stored.1 [] published

first : 0 < num_threads
first = omega arith

second : 1 < num_threads
second = omega arith

sent_to_1 : published.inbox 1 ≡ stored.1 ∷ []
unfolding publish contains subscriptions
sent_to_1 = refl

Reach-published : Reach start published
Reach-published = next Reach-listening (
    processes 0 (put (pos 7) ((k1, v1) ∷ [])) stored.0 succeeded (some stored.1) all_taken first
      refl stored.2)

abbrev delivery : Reach published received
delivery = next here (receives 1 [] [] stored.1 second refl sent_to_1)

Reach-received : Reach start received
Reach-received = next Reach-published (receives 1 [] [] stored.1 second refl sent_to_1)

not_sent_to_0 : received.inbox 0 ≡ []
unfolding publish contains subscriptions
not_sent_to_0 = refl

none_lost_for_0 : received.lost 0 ≡ []
unfolding publish contains subscriptions
none_lost_for_0 = refl

none_lost_for_1 : received.lost 1 ≡ []
unfolding publish contains subscriptions
none_lost_for_1 = refl

-- The same put, before thread 1 has subscribed: its gossip is dropped for thread 1.
abbrev published_early : Cluster
published_early = process 0 stored.0 (some stored.1) all_taken (subscribe 0 start)

Reach-published_early : Reach start published_early
Reach-published_early = next (next here (subscribes 0 first)) (
    processes 0 (put (pos 7) ((k1, v1) ∷ [])) stored.0 succeeded (some stored.1) all_taken first
      refl stored.2)

early_put_dropped :
    (published_early.inbox 1 ≡ [])
    × (published_early.lost 1 ≡ stored.1 ∷ [])
    × ((subscribe 1 published_early).inbox 1 ≡ [])
unfolding publish contains subscriptions
early_put_dropped = (refl, refl, refl)

cluster_converges_example : eq database (received.threads 0).kvs (received.threads 1).kvs ≡ true
cluster_converges_example =
    cluster_converges received 0 1 Reach-received first second not_sent_to_0 refl none_lost_for_0
      none_lost_for_1

updates_arrive_example : le database (published.threads 0).kvs (received.threads 1).kvs ≡ true
updates_arrive_example =
    updates_arrive published received 0 1 Reach-published delivery first second refl none_lost_for_1

cluster_settles_example :
    (d : Cluster) × Drain published d
    × ((i : ℕ) → i < num_threads → d.inbox i ≡ [])
    × (d.lost ≡ published.lost)
    × ((i j : ℕ)
        → i < num_threads
        → j < num_threads
        → published.lost i ≡ []
        → published.lost j ≡ []
        → eq database (d.threads i).kvs (d.threads j).kvs ≡ true)
cluster_settles_example = cluster_settles published Reach-published
