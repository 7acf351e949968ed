-- ===== src/Click/Server/Replies.antt =====
-- The example server against the tally, whatever happens.
use lattice_flow.Base.{◌≡◌, refl, ◌∙◌, ap, subst, none, some, List, [], ◌∷◌, Option-cases, inl, inr}
use lattice_flow.Std.Decimal.{stoi, stoi-to_string}
use lattice_flow.Click.Server.{
  Server, extract_envmsg_cid, new_server, expire, from_workers, in_tee, group_envmsg, dedup, timer,
  to_workers, make_group_evnmsg, group_by_push,
}
use lattice_flow.Zmq.Message.{EnvelopedMessage, clone}
use lattice_flow.Click.Forward.{map_push, dup_push, tee_push}
use lattice_flow.Click.Server.Tally.{
  Event, request, reply, delay, happen, happen_all, Tally, new_tally, tally, tally_all, Answers,
}
use lattice_flow.Click.Server.Refines.{Refines, Gives}
use lattice_flow.Click.Server.Elements.{from_workers-Gives, in_tee-Gives, expire-Gives}

group_envmsg-none : (env : EnvelopedMessage) → group_envmsg env none ≡ none
unfolding group_envmsg group_by_push
group_envmsg-none env = elim (Option-cases (make_group_evnmsg env)) [
  | inl e ↦ rw (group_envmsg, e) refl
  | inr (p, e) ↦ rw (group_envmsg, e) refl
]

happen-none : (event : Event) → happen event none ≡ none
unfolding in_tee from_workers expire tee_push map_push dup_push dedup timer to_workers
happen-none (request env) = refl
happen-none (reply env) =
    ap (dedup (extract_envmsg_cid (clone env))) (group_envmsg-none (clone env))
happen-none (delay n) = refl

happen_all-none : (events : List Event) → happen_all events none ≡ none
happen_all-none [] = refl
happen_all-none (event ∷ events) =
    ap (happen_all events) (happen-none event) ∙ happen_all-none events

-- What follows an event.
happen_all-after :
    (event : Event) (events : List Event) (s : Server) (t : Tally)
    → Gives (happen event (some s)) (tally event t)
    → ((v : Server) (u : Tally)
        → Refines v u
        → Gives (happen_all events (some v)) (tally_all events u))
    → Gives (happen_all (event ∷ events) (some s)) (tally_all (event ∷ events) t)
happen_all-after event events s t g rest = elim (Option-cases (tally event t)) [
  | inl e ↦
      let failed : happen event (some s) ≡ none = subst (Gives (happen event (some s))) e g in
      rw (tally_all, e, failed) (happen_all-none events)
  | inr (u, e) ↦
      let (v, f, h) = subst (Gives (happen event (some s))) e g in rw (tally_all, e, f) (rest v u h)
]

happen_all-Gives :
    (events : List Event) (s : Server) (t : Tally)
    → Answers events
    → Refines s t
    → Gives (happen_all events (some s)) (tally_all events t)
happen_all-Gives [] s t a h = (s, refl, h)
happen_all-Gives (request env ∷ events) s t a h =
    happen_all-after (request env) events s t (in_tee-Gives env s t h)
      (λ v u k. happen_all-Gives events v u a k)
happen_all-Gives (reply env ∷ events) s t ((n, small, k), a) h =
    happen_all-after (reply env) events s t
      (from_workers-Gives env n s t (ap stoi k ∙ stoi-to_string n small) h)
      (λ v u l. happen_all-Gives events v u a l)
happen_all-Gives (delay n ∷ events) s t a h =
    happen_all-after (delay n) events s t (expire-Gives n s t h)
      (λ v u k. happen_all-Gives events v u a k)

new_server-Refines : Refines new_server new_tally
new_server-Refines = record {
  groups_refine = refl;
  counts_refine = refl;
  timers_refine = refl;
  router_refine = refl;
  source_refine = refl;
}

pub happen_all-tally_all :
    (events : List Event)
    → Answers events
    → Gives (happen_all events (some new_server)) (tally_all events new_tally)
happen_all-tally_all events a = happen_all-Gives events new_server new_tally a new_server-Refines
