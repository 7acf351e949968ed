-- ===== src/Click/Server/OneEntry.antt =====
-- Maps with connection ids for keys, which are all the same to them: they hold one entry at most.
use lattice_flow.Base.{◌≡◌, refl, ap, true, none, some, [], ◌∷◌, ◌⊎◌, inl, inr}
use lattice_flow.Std.Assoc.{Assoc}
use lattice_flow.Std.OrderedMap.{find_key, set_key, erase_key, same_key}
use lattice_flow.Zmq.Message.{ConnectionId, id_lt, lt-false}
use lattice_flow.Click.Server.{}

-- A map that holds no more than one entry, whose value reads as this one.
abbrev pub Holds : {V : Type 0} → V → Assoc ConnectionId V → V → Type 0
Holds empty [] v = v ≡ empty
Holds empty ((c, w) ∷ []) v = w ≡ v
Holds empty (e ∷ f ∷ m) v = ⊥

pub all_same : (a b : ConnectionId) → same_key id_lt a b ≡ true
all_same a b =
    rw
      (
        (lt-false (record { cid = a; msg = [] }) (record { cid = b; msg = [] })).0,
        (lt-false (record { cid = b; msg = [] }) (record { cid = a; msg = [] })).0,
      )
      refl

pub find_key-Holds :
    {V : Type 0} (empty : V) (k : ConnectionId) (m : Assoc ConnectionId V) (v : V)
    → Holds empty m v
    → ((find_key id_lt k m ≡ none) × (v ≡ empty)) ⊎ (find_key id_lt k m ≡ some v)
unfolding find_key
find_key-Holds empty k [] v h = inl (refl, h)
find_key-Holds empty k ((c, w) ∷ []) v h = inr (rw (all_same c k) (ap some h))
find_key-Holds empty k (e ∷ f ∷ m) v h = absurd h

pub set_key-Holds :
    {V : Type 0} (empty : V) (k : ConnectionId) (m : Assoc ConnectionId V) (v w : V)
    → Holds empty m v
    → Holds empty (set_key id_lt k w m) w
unfolding set_key
set_key-Holds empty k [] v w h = refl
set_key-Holds empty k ((c, u) ∷ []) v w h = rw (all_same c k) refl
set_key-Holds empty k (e ∷ f ∷ m) v w h = absurd h

pub erase_key-Holds :
    {V : Type 0} (empty : V) (k : ConnectionId) (m : Assoc ConnectionId V) (v : V)
    → Holds empty m v
    → Holds empty (erase_key id_lt k m) empty
unfolding erase_key
erase_key-Holds empty k [] v h = refl
erase_key-Holds empty k ((c, u) ∷ []) v h = rw (all_same c k) refl
erase_key-Holds empty k (e ∷ f ∷ m) v h = absurd h
