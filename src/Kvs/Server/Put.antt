-- ===== src/Kvs/Server/Put.antt =====
-- What a put does to the database of a server thread.
use lattice_flow.Base.{
  ◌+◌, ◌≡◌, refl, ℤ, Bool, true, false, ◌||◌, Option, none, some, List, [], ◌∷◌, arith, ◌==◌,
  if◌then◌else◌, int_lt, int_ord, int-total, length, Bool-cases, inl, inr, ltb,
}
use lattice_flow.Lattices.Lattice.{IsLattice, eq, le}
use lattice_flow.Lattices.Order
use lattice_flow.Lattices.Max.{MaxLattice, max_lattice, max_lattice-IsLattice, lt, std_max}
use lattice_flow.Lattices.Max
use lattice_flow.Lattices.Timestamp.{join}
use lattice_flow.Lattices.Timestamp.Laws.{timestamp_lattice-IsLattice}
use lattice_flow.Lattices.Timestamp.MaxTimestamp.{max_lattice-IsTotal}
use lattice_flow.Lattices.MapLattice
use lattice_flow.Lattices.MapLattice.Laws.{
  join_option, get-put, get-join, eq_iff, map_lattice-IsLattice,
}
use lattice_flow.Std.UnorderedMap.{option_eq}
use lattice_flow.Std.UnorderedSet.{contains, contains-insert, IsDistinct, insert-IsDistinct}
use lattice_flow.Std.Lexicographic.{bytes_eq, bytes_ord, lexicographical_compare}
use lattice_flow.Kvs.Message.{Key, Value}
use lattice_flow.Kvs.Server.{
  State, Database, TimestampedStringLattice, timestamped, database, stamp, to_int, put_pair,
  put_pairs,
}

-- The values of the database form a lattice.
pub timestamped-IsLattice : IsLattice timestamped
timestamped-IsLattice =
    timestamp_lattice-IsLattice max_lattice lt max_lattice max_lattice-IsLattice max_lattice-IsTotal
      max_lattice-IsLattice

-- The server's database is a join semilattice: up to `==`, which is an equivalence, `join` is
-- idempotent, commutative and associative, and it respects `==`.
pub database-IsLattice : IsLattice database
database-IsLattice = map_lattice-IsLattice timestamped timestamped-IsLattice

abbrev pub oeq : Option TimestampedStringLattice → Option TimestampedStringLattice → Bool
oeq = option_eq (eq timestamped)

abbrev pub ojoin :
    Option TimestampedStringLattice
    → Option TimestampedStringLattice
    → Option TimestampedStringLattice
ojoin = join_option timestamped.join

-- A value is absorbed by a join with it.
absorbed :
    (o : Option TimestampedStringLattice) (v : TimestampedStringLattice)
    → oeq (ojoin o (ojoin o (some v))) (ojoin o (some v)) ≡ true
absorbed none v = timestamped-IsLattice.eq_refl v
absorbed (some w) v = Order.le-join_left timestamped timestamped-IsLattice w v

same : (o : Option TimestampedStringLattice) → oeq (ojoin o o) o ≡ true
same none = refl
same (some v) = timestamped-IsLattice.join_idem v

-- One put only adds to the database.
pub le-put :
    (m : Database) (k : Key) (v : TimestampedStringLattice)
    → le database m (MapLattice.put timestamped k v m) ≡ true
le-put m k v =
    (eq_iff timestamped (MapLattice.join timestamped m (MapLattice.put timestamped k v m))
        (MapLattice.put timestamped k v m)).1
      λ j. rw (get-join timestamped m (MapLattice.put timestamped k v m) j) (
        ground (
          arith,
          get-put timestamped m k j v,
          absorbed (MapLattice.get m j) v,
          same (MapLattice.get m j),
          bytes_eq.beq_iff k j,
        ))

-- A put request only adds to the database: what a thread held before it is below what it holds
-- after, in the order of the database.
pub le-put_pairs :
    (ts : ℤ) (pairs : List (Key × Value)) (state : State)
    → le database state.kvs (put_pairs ts pairs state).kvs ≡ true
unfolding put_pairs
le-put_pairs ts [] state = Order.le_refl database database-IsLattice state.kvs
le-put_pairs ts ((k, v) ∷ pairs) state =
    Order.le_trans database database-IsLattice state.kvs (put_pair ts k v state).kvs
      (put_pairs ts pairs (put_pair ts k v state)).kvs (le-put state.kvs k (stamp ts v))
      (le-put_pairs ts pairs (put_pair ts k v state))

abbrev pub put_keys : List (Key × Value) → List Key
put_keys [] = []
put_keys ((k, _) ∷ rest) = k ∷ put_keys rest

-- A put request changes no key that it does not name.
pub put_pairs_frame :
    (ts : ℤ) (pairs : List (Key × Value)) (state : State) (j : Key)
    → contains j (put_keys pairs) ≡ false
    → MapLattice.get (put_pairs ts pairs state).kvs j ≡ MapLattice.get state.kvs j
unfolding put_pairs contains
put_pairs_frame ts [] state j h = refl
put_pairs_frame ts ((k, v) ∷ pairs) state j h = ground (
  arith,
  put_pairs_frame ts pairs (put_pair ts k v state) j,
  get-put timestamped state.kvs k j (stamp ts v),
)

pub put_pairs_noted :
    (ts : ℤ) (pairs : List (Key × Value)) (state : State) (j : Key)
    → contains j (put_pairs ts pairs state).change_set
      ≡ (contains j state.change_set || contains j (put_keys pairs))
unfolding put_pairs contains
put_pairs_noted ts [] state j = ground arith
put_pairs_noted ts ((k, v) ∷ pairs) state j = ground (
  arith,
  put_pairs_noted ts pairs (put_pair ts k v state) j,
  contains-insert j k state.change_set,
)

-- Every noted key is in the database.
abbrev pub Noted : State → Type 0
Noted state =
    (j : Key)
    → contains j state.change_set ≡ true
    → (v : TimestampedStringLattice) × (MapLattice.get state.kvs j ≡ some v)

ojoin-some :
    (o : Option TimestampedStringLattice) (v : TimestampedStringLattice)
    → (w : TimestampedStringLattice) × (ojoin o (some v) ≡ some w)
ojoin-some none v = (v, refl)
ojoin-some (some u) v = (timestamped.join u v, refl)

put_pair-Noted :
    (ts : ℤ) (k : Key) (v : Value) (state : State) → Noted state → Noted (put_pair ts k v state)
unfolding put_pair
put_pair-Noted ts k v state n j h = elim (Bool-cases (k == j)) [
  | inl here ↦
      let (w, e) = ojoin-some (MapLattice.get state.kvs k) (stamp ts v) in
      (w, rw (get-put timestamped state.kvs k j (stamp ts v), here) e)
  | inr there ↦
      let (u, f) = n j (ground (arith, contains-insert j k state.change_set)) in
      (u, rw (get-put timestamped state.kvs k j (stamp ts v), there) f)
]

pub put_pairs-Noted :
    (ts : ℤ) (pairs : List (Key × Value)) (state : State)
    → Noted state
    → IsDistinct state.change_set
    → Noted (put_pairs ts pairs state) × IsDistinct (put_pairs ts pairs state).change_set
unfolding put_pairs
put_pairs-Noted ts [] state n d = (n, d)
put_pairs-Noted ts ((k, v) ∷ pairs) state n d =
    put_pairs-Noted ts pairs (put_pair ts k v state) (put_pair-Noted ts k v state n)
      (insert-IsDistinct k state.change_set d)

pub put_pairs_rest :
    (ts : ℤ) (pairs : List (Key × Value)) (state : State)
    → ((put_pairs ts pairs state).update_counter ≡ state.update_counter + length pairs)
      × ((put_pairs ts pairs state).local_timestamp ≡ state.local_timestamp)
      × ((put_pairs ts pairs state).thread_id ≡ state.thread_id)
unfolding put_pairs
put_pairs_rest ts [] state = ground arith
put_pairs_rest ts ((k, v) ∷ pairs) state =
    ground (arith, put_pairs_rest ts pairs (put_pair ts k v state))

-- What a last-writer-wins register holds after a write: the later timestamp wins, and at the same
-- timestamp the greater string.
unfoldable pub last_write : ℤ → Value → Option TimestampedStringLattice → ℤ × Value
last_write ts v none = (ts, v)
last_write ts v (some old) =
    if int_lt old.p.0.x ts
    then (ts, v)
    else if int_lt ts old.p.0.x
    then (old.p.0.x, old.p.1.x)
    else (old.p.0.x, if lexicographical_compare ltb old.p.1.x v then v else old.p.1.x)

abbrev pub register : ℤ × Value → TimestampedStringLattice
register (ts, v) = record { p = (record { x = ts }, record { x = v }) }

register-join :
    (t : ℤ) (v : Value) (o : Option TimestampedStringLattice)
    → ojoin o (some (register (t, v))) ≡ some (register (last_write t v o))
unfolding last_write join Max.join lt std_max bytes_ord
register-join t v none = refl
register-join t v (some old) = ground (arith, int-total old.p.0.x t)

-- A put of one pair is a write to a last-writer-wins register, with the timestamp narrowed to `int`:
-- the value with the later timestamp stays, against an equal timestamp the greater string, and where
-- nothing is stored for the key, the new value is. Any other key keeps what it had.
pub put_pair-last_write :
    (ts : ℤ) (k : Key) (v : Value) (state : State) (j : Key)
    → MapLattice.get (put_pair ts k v state).kvs j ≡ (
        if k == j
        then some (register (last_write (to_int ts) v (MapLattice.get state.kvs k)))
        else MapLattice.get state.kvs j)
unfolding put_pair stamp
put_pair-last_write ts k v state j =
    rw
      (
        get-put timestamped state.kvs k j (stamp ts v),
        register-join (to_int ts) v (MapLattice.get state.kvs k),
      )
      refl
