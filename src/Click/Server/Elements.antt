-- ===== src/Click/Server/Elements.antt =====
-- Each element of the example server against the tally.
use mathlib.Core.Option.{map}
use lattice_flow.Base.{
  ℕ, ◌+◌, ◌≡◌, refl, sym, ap, subst, leb, Option, none, some, List, [], ◌∷◌, ◌++◌, nat_beq,
  Bool-cases, Option-cases, inl, inr,
}
use lattice_flow.Std.OrderedMap.{set_key}
use lattice_flow.Std.Decimal.{stoi, int_max}
use lattice_flow.Zmq.Message.{ConnectionId, EnvelopedMessage, id_lt, clone_lem}
use lattice_flow.Click.Forward.{map_push, dup_push, tee_push}
use lattice_flow.Click.Socket.{socket_send}
use lattice_flow.Click.Server.{
  Server, take_out, num_workers, make_group_evnmsg, extract_envmsg_cid, held, group_by_push,
  group_by_end, set_count, erase_count, dedup, timer, expire, group_envmsg, from_workers,
  to_workers, in_tee,
}
use lattice_flow.Click.Server.Tally.{
  request, Tally, sum, flush_to, number, count_up, count_reply, count_delay, tally, questions-snoc,
}
use lattice_flow.Click.Server.OneEntry.{Holds, find_key-Holds, set_key-Holds, erase_key-Holds}
use lattice_flow.Click.Server.Refines.{Refines, Gives, group_by_end-Gives}

set_count-Refines :
    (cid : ConnectionId) (n : ℕ) (s : Server) (t : Tally)
    → Refines s t
    → Refines (set_count cid n s) (record t { count = n })
set_count-Refines cid n s t h = record {
  groups_refine = h.groups_refine;
  counts_refine = set_key-Holds 0 cid s.counts t.count n h.counts_refine;
  timers_refine = h.timers_refine;
  router_refine = h.router_refine;
  source_refine = h.source_refine;
}

abbrev uncounted : Tally → Tally
uncounted t = record t { count = 0 }

erase_count-Gives :
    (cid : ConnectionId) (r : Option Server) (t : Option Tally)
    → Gives r t
    → Gives (map (erase_count cid) r) (map uncounted t)
erase_count-Gives cid r none e = ap (map (erase_count cid)) e
erase_count-Gives cid r (some t) (s, e, h) = (
  erase_count cid s,
  ap (map (erase_count cid)) e,
  record {
    groups_refine = h.groups_refine;
    counts_refine = erase_key-Holds 0 cid s.counts t.count h.counts_refine;
    timers_refine = h.timers_refine;
    router_refine = h.router_refine;
    source_refine = h.source_refine;
  },
)

flush_to_count :
    (cid : ConnectionId) (n : ℕ) (t : Tally)
    → map uncounted (flush_to cid (record t { count = n })) ≡ flush_to cid (record t { count = 0 })
flush_to_count cid n t = elim (Bool-cases (leb (sum t.pending) int_max)) [
  | inl fits ↦ rw fits refl
  | inr over ↦ rw over refl
]

pub dedup-Gives :
    (cid : ConnectionId) (s : Server) (t : Tally)
    → Refines s t
    → Gives (dedup cid (some s)) (count_up cid t)
unfolding dedup
dedup-Gives cid s t h = elim (find_key-Holds 0 cid s.counts t.count h.counts_refine) [
  | inl q ↦
      subst (λ n. Gives (dedup cid (some s)) (count_up cid (record t { count = n }))) (sym q.1)
        (set_count cid 1 s, rw (dedup, q.0) refl, set_count-Refines cid 1 s t h)
  | inr q ↦
      let counted = set_count-Refines cid (t.count + 1) s t h in
      elim (Bool-cases (nat_beq (t.count + 1) num_workers)) [
        | inl e ↦
            rw (dedup, q, e)
              (subst
                (Gives
                  (map (erase_count cid) (group_by_end cid (some (set_count cid (t.count + 1) s)))))
                (flush_to_count cid (t.count + 1) t)
                (erase_count-Gives cid (group_by_end cid (some (set_count cid (t.count + 1) s)))
                  (flush_to cid (record t { count = t.count + 1 }))
                  (group_by_end-Gives cid (set_count cid (t.count + 1) s)
                    (record t { count = t.count + 1 }) counted)))
        | inr e ↦ rw (dedup, q, e) (set_count cid (t.count + 1) s, refl, counted)
      ]
]

held-Holds : (cid : ConnectionId) (s : Server) (t : Tally) → Refines s t → held cid s ≡ t.pending
held-Holds cid s t h = elim (find_key-Holds [] cid s.groups t.pending h.groups_refine) [
  | inl q ↦ rw (held, q.0, q.1) refl
  | inr q ↦ rw (held, q) refl
]

group_by_push-Refines :
    (cid : ConnectionId) (n : ℕ) (s : Server) (t : Tally)
    → Refines s t
    → Refines
        (record s { groups = set_key id_lt cid (held cid s ++ n ∷ []) s.groups })
        (record t { pending = t.pending ++ n ∷ [] })
group_by_push-Refines cid n s t h = record {
  groups_refine =
      subst (λ xs. Holds [] (set_key id_lt cid (held cid s ++ n ∷ []) s.groups) (xs ++ n ∷ []))
        (held-Holds cid s t h)
        (set_key-Holds [] cid s.groups t.pending (held cid s ++ n ∷ []) h.groups_refine);
  counts_refine = h.counts_refine;
  timers_refine = h.timers_refine;
  router_refine = h.router_refine;
  source_refine = h.source_refine;
}

pub from_workers-Gives :
    (env : EnvelopedMessage) (n : ℕ) (s : Server) (t : Tally)
    → stoi env.msg ≡ some n
    → Refines s t
    → Gives (from_workers env (some s)) (count_reply env t)
unfolding from_workers tee_push map_push group_envmsg make_group_evnmsg extract_envmsg_cid
    group_by_push
from_workers-Gives env n s t e h =
    subst (λ x. Gives (dedup (extract_envmsg_cid x) (group_envmsg x (some s))) (count_reply env t))
      (sym (clone_lem env))
      (rw (group_envmsg, make_group_evnmsg, count_reply, number, e)
        (dedup-Gives env.cid
          (record s { groups = set_key id_lt env.cid (held env.cid s ++ n ∷ []) s.groups })
          (record t { pending = t.pending ++ n ∷ [] }) (group_by_push-Refines env.cid n s t h)))

pub in_tee-Gives :
    (env : EnvelopedMessage) (s : Server) (t : Tally)
    → Refines s t
    → Gives (in_tee env (some s)) (tally (request env) t)
unfolding in_tee tee_push map_push dup_push extract_envmsg_cid timer to_workers
in_tee-Gives env s t h = rw (clone_lem env) (
  record s {
    timers = s.timers ++ env.cid ∷ [];
    source = dup_push num_workers socket_send env s.source;
  },
  refl,
  record {
    groups_refine = h.groups_refine;
    counts_refine = h.counts_refine;
    timers_refine = ap (λ cids. cids ++ env.cid ∷ []) h.timers_refine;
    router_refine = h.router_refine;
    source_refine = rw (h.source_refine) (sym (questions-snoc t.asked env []));
  },
)

set_waiting-Refines :
    (cids : List ConnectionId) (s : Server) (t : Tally)
    → Refines s t
    → Refines (record s { timers = cids }) (record t { waiting = cids })
set_waiting-Refines cids s t h = record {
  groups_refine = h.groups_refine;
  counts_refine = h.counts_refine;
  timers_refine = refl;
  router_refine = h.router_refine;
  source_refine = h.source_refine;
}

pub expire-Gives :
    (n : ℕ) (s : Server) (t : Tally) → Refines s t → Gives (expire n (some s)) (count_delay n t)
unfolding expire
expire-Gives n s t h = elim (Option-cases (take_out n t.waiting)) [
  | inl e ↦ rw (expire, h.timers_refine, count_delay, e) (s, refl, h)
  | inr ((cid, rest), e) ↦
      rw (expire, h.timers_refine, count_delay, e)
        (group_by_end-Gives cid (record s { timers = rest }) (record t { waiting = rest })
          (set_waiting-Refines rest s t h))
]
