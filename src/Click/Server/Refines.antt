-- ===== src/Click/Server/Refines.antt =====
-- When the example server refines the tally, and the sums that it sends.
use mathlib.Core.Option.{map}
use lattice_flow.Base.{
  ℕ, ◌+◌, ◌≡◌, refl, sym, ◌∙◌, ap, subst, ◌≤◌, arith, leb, true, false, if◌then◌else◌, Option, none,
  some, List, [], ◌∷◌, ◌++◌, Bool-cases, inl, inr,
}
use lattice_flow.Std.Decimal.{to_string, int_max}
use lattice_flow.Zmq.Message.{ConnectionId}
use lattice_flow.Zmq.Envelope.{Frame}
use lattice_flow.Click.Socket.{socket_send}
use lattice_flow.Click.Server.{
  Server, accumulate, reduce_group, out, reduce, group_by_end, erase_group,
}
use lattice_flow.Click.Server.Tally.{Tally, sum, flush_to, frames, frames-snoc, questions}
use lattice_flow.Click.Server.OneEntry.{Holds, find_key-Holds, erase_key-Holds}

pub record Refines (s : Server) (t : Tally) : Type 0 where
  pub groups_refine : Holds [] s.groups t.pending
  pub counts_refine : Holds 0 s.counts t.count
  pub timers_refine : s.timers ≡ t.waiting
  pub router_refine : s.router ≡ frames t.sent []
  pub source_refine : s.source ≡ questions t.asked []

-- There is a server, and it refines the tally; or there is neither.
abbrev pub Gives : Option Server → Option Tally → Type 0
Gives r none = r ≡ none
Gives r (some t) = (s : Server) × (r ≡ some s) × Refines s t

accumulate_lem :
    (xs : List ℕ) (n : ℕ)
    → n ≤ int_max
    → accumulate xs n ≡ (if leb (n + sum xs) int_max then some (n + sum xs) else none)
accumulate_lem [] n h = ground arith
accumulate_lem (x ∷ xs) n h = elim (Bool-cases (leb (n + x) int_max)) [
  | inl fits ↦
      let more : n + x + sum xs ≡ n + (x + sum xs) = omega arith in
      rw (fits, sym more) (accumulate_lem xs (n + x) (ground arith))
  | inr over ↦
      let far : leb (n + (x + sum xs)) int_max ≡ false = ground arith in rw (over, far) refl
]

accumulate_from_zero :
    (xs : List ℕ) → accumulate xs 0 ≡ (if leb (sum xs) int_max then some (sum xs) else none)
accumulate_from_zero xs =
    let same : 0 + sum xs ≡ sum xs = omega arith in
    accumulate_lem xs 0 (omega arith) ∙ ap (λ n. if leb n int_max then some n else none) same

reduce_group_lem :
    (cid : ConnectionId) (xs : List ℕ)
    → reduce_group (cid, xs) ≡ (
        if leb (sum xs) int_max
        then some (record { cid = cid; msg = to_string (sum xs) })
        else none)
unfolding reduce_group
reduce_group_lem cid xs = elim (Bool-cases (leb (sum xs) int_max)) [
  | inl fits ↦ rw (reduce_group, accumulate_from_zero xs, fits) refl
  | inr over ↦ rw (reduce_group, accumulate_from_zero xs, over) refl
]

frames-flush :
    (cid : ConnectionId) (t : Tally) (fs : List Frame)
    → fs ≡ frames t.sent []
    → socket_send (record { cid = cid; msg = to_string (sum t.pending) }) fs
      ≡ frames (t.sent ++ (cid, sum t.pending) ∷ []) []
frames-flush cid t fs h = rw (h, sym (frames-snoc t.sent cid (sum t.pending) [])) refl

reduce-sent :
    (cid : ConnectionId) (xs : List ℕ) (s : Server)
    → leb (sum xs) int_max ≡ true
    → reduce (cid, xs) (some s)
      ≡ some (record s {
        router = socket_send (record { cid = cid; msg = to_string (sum xs) }) s.router;
      })
unfolding reduce out
reduce-sent cid xs s fits = rw (reduce, reduce_group_lem cid xs, fits) refl

reduce-failed :
    (cid : ConnectionId) (xs : List ℕ) (s : Server)
    → leb (sum xs) int_max ≡ false
    → reduce (cid, xs) (some s) ≡ none
unfolding reduce
reduce-failed cid xs s over = rw (reduce, reduce_group_lem cid xs, over) refl

-- The end of a group whose sum is an `int`.
group_by_end-sent :
    (cid : ConnectionId) (s : Server) (t : Tally)
    → Refines s t
    → leb (sum t.pending) int_max ≡ true
    → Gives
        (group_by_end cid (some s))
        (some (record t { pending = []; sent = t.sent ++ (cid, sum t.pending) ∷ [] }))
unfolding group_by_end
group_by_end-sent cid s t h fits = elim (find_key-Holds [] cid s.groups t.pending h.groups_refine) [
  | inl q ↦
      let sent =
        subst
          (λ xs.
            socket_send (record { cid = cid; msg = to_string (sum xs) }) s.router
            ≡ frames (t.sent ++ (cid, sum t.pending) ∷ []) [])
          q.1 (frames-flush cid t s.router h.router_refine) in
      (
        record s { router = socket_send (record { cid = cid; msg = to_string 0 }) s.router },
        rw (group_by_end, q.0) (reduce-sent cid [] s refl),
        record {
          groups_refine = subst (Holds [] s.groups) q.1 h.groups_refine;
          counts_refine = h.counts_refine;
          timers_refine = h.timers_refine;
          router_refine = sent;
          source_refine = h.source_refine;
        },
      )
  | inr q ↦ (
    erase_group cid (record s {
      router = socket_send (record { cid = cid; msg = to_string (sum t.pending) }) s.router;
    }),
    rw (group_by_end, q) (ap (map (erase_group cid)) (reduce-sent cid t.pending s fits)),
    record {
      groups_refine = erase_key-Holds [] cid s.groups t.pending h.groups_refine;
      counts_refine = h.counts_refine;
      timers_refine = h.timers_refine;
      router_refine = frames-flush cid t s.router h.router_refine;
      source_refine = h.source_refine;
    },
  )
]

pub group_by_end-Gives :
    (cid : ConnectionId) (s : Server) (t : Tally)
    → Refines s t
    → Gives (group_by_end cid (some s)) (flush_to cid t)
unfolding group_by_end
group_by_end-Gives cid s t h = elim (Bool-cases (leb (sum t.pending) int_max)) [
  | inl fits ↦ rw fits (group_by_end-sent cid s t h fits)
  | inr over ↦ rw over (elim (find_key-Holds [] cid s.groups t.pending h.groups_refine) [
    | inl q ↦
        rw (group_by_end, q.0)
          (reduce-failed cid [] s (ap (λ xs. leb (sum xs) int_max) (sym q.1) ∙ over))
    | inr q ↦ rw (group_by_end, q) (ap (map (erase_group cid)) (reduce-failed cid t.pending s over))
  ])
]
