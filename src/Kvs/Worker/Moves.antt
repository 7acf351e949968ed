-- ===== src/Kvs/Worker/Moves.antt =====
-- What the handlers of a thread come to, as steps of the threads of the server.
use mathlib.Core.List.{append_assoc, append-nil}
use lattice_flow.Base.{
  ℕ, ◌<◌, ◌≡◌, refl, sym, ◌∙◌, ap, subst, Bool, true, false, not, ◌&&◌, if◌then◌else◌, Bool-cases,
  inl, inr, Option, none, some, List, [], ◌∷◌, ◌++◌, arith, nat_beq, nat_eq,
}
use lattice_flow.Zmq.Envelope.{Frame}
use lattice_flow.Kvs.Message.{Request, Response}
use lattice_flow.Kvs.Server.{State, GossipData, num_threads, process_request}
use lattice_flow.Kvs.Server.Gossip.{IsFlushed}
use lattice_flow.Kvs.Cluster.{
  Cluster, processes, receives, Reach, here, next, publish, process, receive, merge, comes,
}
use lattice_flow.Kvs.Cluster.Invariant.{subscribed}
use lattice_flow.Kvs.Worker.{Worker, published}
use lattice_flow.Kvs.Worker.Requests.{after_request}

-- Thread `j` of the server is this one, between two requests.
pub record IsAt (j : ℕ) (w : Worker) (c : Cluster) : Type 0 where
  pub state_at : c.threads j ≡ w.state
  pub inbox_at : c.inbox j ≡ w.subscriber
  pub flushed : IsFlushed w.state
  pub named : w.state.thread_id ≡ j

-- The gossip, if it comes.
abbrev pub arrived : Bool → List GossipData → List GossipData
arrived b gs = if b then gs else []

-- Thread `j` and the server have come to another state: the other threads are as they were, and what
-- thread `j` has published in between has come to those that had subscribed and whose sockets take it,
-- and was dropped for the others.
pub record Moves (taken : ℕ → Bool) (j : ℕ) (w : Worker) (c : Cluster) (v : Worker) (d : Cluster)
    : Type 0 where
  pub reached : Reach c d
  pub at : IsAt j v d
  pub others : (k : ℕ) → nat_beq j k ≡ false → d.threads k ≡ c.threads k
  pub listening : d.subscribed ≡ c.subscribed
  pub sent : List GossipData
  pub sent_by : v.publisher ≡ w.publisher ++ sent
  pub sent_to :
      (k : ℕ)
      → k < num_threads
      → nat_beq j k ≡ false
      → d.inbox k ≡ c.inbox k ++ arrived (comes taken c k) sent
  pub dropped_for :
      (k : ℕ)
      → k < num_threads
      → nat_beq j k ≡ false
      → d.lost k ≡ c.lost k ++ arrived (not (comes taken c k)) sent
  pub own_lost : d.lost j ≡ c.lost j

pub Reach-trans : {b c d : Cluster} → Reach b c → Reach c d → Reach b d
Reach-trans r here = r
Reach-trans r (next s step) = next (Reach-trans r s) step

-- Gossip that comes, or is dropped, after other gossip.
arrived_after :
    (b : Bool) (xs ys zs first second : List GossipData)
    → ys ≡ xs ++ arrived b first
    → zs ≡ ys ++ arrived b second
    → zs ≡ xs ++ arrived b (first ++ second)
arrived_after true xs ys zs first second e f =
    f ∙ ap (λ gs. gs ++ second) e ∙ append_assoc xs first second
arrived_after false xs ys zs first second e f = f ∙ append-nil ys ∙ e

arrived_none : (b : Bool) (xs : List GossipData) → xs ≡ xs ++ arrived b []
arrived_none true xs = sym (append-nil xs)
arrived_none false xs = sym (append-nil xs)

comes-same :
    (taken : ℕ → Bool) (b c : Cluster) (k : ℕ)
    → c.subscribed ≡ b.subscribed
    → comes taken c k ≡ comes taken b k
comes-same taken b c k e = ap (λ s. s k && taken k) e

pub Moves-trans :
    (taken : ℕ → Bool) (j : ℕ) (u : Worker) (b : Cluster) (v : Worker) (c : Cluster) (w : Worker)
    (d : Cluster)
    → Moves taken j u b v c
    → Moves taken j v c w d
    → Moves taken j u b w d
Moves-trans taken j u b v c w d m n = record {
  reached = Reach-trans m.reached n.reached;
  at = n.at;
  others = λ k h. n.others k h ∙ m.others k h;
  listening = n.listening ∙ m.listening;
  sent = m.sent ++ n.sent;
  sent_by = n.sent_by ∙ ap (λ gs. gs ++ n.sent) m.sent_by ∙ append_assoc u.publisher m.sent n.sent;
  sent_to = λ k l h.
      arrived_after (comes taken b k) (b.inbox k) (c.inbox k) (d.inbox k) m.sent n.sent
        (m.sent_to k l h)
        (subst (λ a. d.inbox k ≡ c.inbox k ++ arrived a n.sent) (comes-same taken b c k m.listening)
          (n.sent_to k l h));
  dropped_for = λ k l h.
      arrived_after (not (comes taken b k)) (b.lost k) (c.lost k) (d.lost k) m.sent n.sent
        (m.dropped_for k l h)
        (subst (λ a. d.lost k ≡ c.lost k ++ arrived (not a) n.sent)
          (comes-same taken b c k m.listening) (n.dropped_for k l h));
  own_lost = n.own_lost ∙ m.own_lost;
}

pub Moves-refl :
    (taken : ℕ → Bool) (j : ℕ) (w : Worker) (c : Cluster) → IsAt j w c → Moves taken j w c w c
Moves-refl taken j w c h = record {
  reached = here;
  at = h;
  others = λ k e. refl;
  listening = refl;
  sent = [];
  sent_by = sym (append-nil w.publisher);
  sent_to = λ k l e. arrived_none (comes taken c k) (c.inbox k);
  dropped_for = λ k l e. arrived_none (not (comes taken c k)) (c.lost k);
  own_lost = refl;
}

publish_self :
    (j : ℕ) (sent : Option GossipData) (holds : ℕ → Bool) (gossip : ℕ → List GossipData)
    → j < num_threads
    → publish j sent holds gossip j ≡ gossip j
unfolding publish
publish_self j none holds gossip h = refl
publish_self j (some g) holds gossip h = rw (subscribed j j h h) (ground arith)

publish_other :
    (j k : ℕ) (sent : Option GossipData) (holds : ℕ → Bool) (gossip : ℕ → List GossipData)
    → j < num_threads
    → k < num_threads
    → nat_beq j k ≡ false
    → publish j sent holds gossip k ≡ gossip k ++ arrived (holds k) (published sent)
unfolding publish
publish_other j k none holds gossip h l e = arrived_none (holds k) (gossip k)
publish_other j k (some g) holds gossip h l e = elim (Bool-cases (holds k)) [
  | inl b ↦ rw (publish, subscribed j k h l, e, b) refl
  | inr b ↦ rw (publish, subscribed j k h l, e, b) (sym (append-nil (gossip k)))
]

nat_beq_self : (j : ℕ) → nat_beq j j ≡ true
nat_beq_self j = ground arith

pub request-Moves :
    (taken : ℕ → Bool) (j : ℕ) (c : Cluster) (w : Worker) (request : Request)
    (rest replies : List Frame) (t : State) (response : Response) (sent : Option GossipData)
    → j < num_threads
    → c.subscribed j ≡ true
    → IsAt j w c
    → IsFlushed t
    → t.thread_id ≡ w.state.thread_id
    → process_request request w.state ≡ some (t, response, sent)
    → Moves taken j w c (after_request w rest replies t sent) (process j t sent taken c)
request-Moves taken j c w request rest replies t response sent l s h f n e = record {
  reached = next here (
      processes j request t response sent taken l s
        (subst (λ x. process_request request x ≡ some (t, response, sent)) (sym h.state_at) e));
  at = record {
    state_at = rw (nat_beq_self j) refl;
    inbox_at = publish_self j sent (comes taken c) c.inbox l ∙ h.inbox_at;
    flushed = f;
    named = n ∙ h.named;
  };
  others = λ k d. rw d refl;
  listening = refl;
  sent = published sent;
  sent_by = refl;
  sent_to = λ k m d. publish_other j k sent (comes taken c) c.inbox l m d;
  dropped_for = λ k m d. publish_other j k sent (λ i. not (comes taken c i)) c.lost l m d;
  own_lost = publish_self j sent (λ i. not (comes taken c i)) c.lost l;
}

-- A thread after it has processed a gossip.
abbrev pub after_gossip : Worker → GossipData → List GossipData → Worker
after_gossip w g rest = record w { state = merge g w.state; subscriber = rest }

pub gossip-Moves :
    (taken : ℕ → Bool) (j : ℕ) (c : Cluster) (w : Worker) (g : GossipData) (rest : List GossipData)
    → j < num_threads
    → c.subscribed j ≡ true
    → IsAt j w c
    → w.subscriber ≡ g ∷ rest
    → Moves taken j w c (after_gossip w g rest) (receive j g rest c)
gossip-Moves taken j c w g rest l s h e = record {
  reached = next here (receives j [] rest g l s (h.inbox_at ∙ e));
  at = record {
    state_at = rw (nat_beq_self j) (ap (merge g) h.state_at);
    inbox_at = rw (nat_beq_self j) refl;
    flushed = record { no_changes = h.flushed.no_changes; no_updates = h.flushed.no_updates };
    named = h.named;
  };
  others = λ k d. rw d refl;
  listening = refl;
  sent = [];
  sent_by = sym (append-nil w.publisher);
  sent_to = λ k m d. rw d (arrived_none (comes taken c k) (c.inbox k));
  dropped_for = λ k m d. arrived_none (not (comes taken c k)) (c.lost k);
  own_lost = refl;
}
