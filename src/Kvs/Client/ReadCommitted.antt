-- ===== src/Kvs/Client/ReadCommitted.antt =====
-- src/key_value_stores/rc_client.cc.
use lattice_flow.Base.{ℤ, int_eq, none, some, [], ◌∷◌, if◌then◌else◌}
use lattice_flow.Std.Assoc.{Assoc, find, assign}
use lattice_flow.Std.Lexicographic.{bytes_eq}
use lattice_flow.Kvs.Message.{Key, Value, Request, begin_transaction}
use lattice_flow.Kvs.Client.{Client, Outcome, text, first_begin}
use lattice_flow.Kvs.Client.Session.{Serve, no_timestamp, began, got, stored}

pub record RcClient : Type 0 where
  pub current_timestamp : ℤ
  pub write_buffer : Assoc Key Value

abbrev pub new_client : RcClient
new_client = record { current_timestamp = no_timestamp; write_buffer = [] }

module _ {S : Type 0} (serve : Serve S) where
  unfoldable pub begin : RcClient → S → Outcome RcClient S
  begin c s = elim (serve begin_transaction s) [
    | none ↦ none
    | some (response, s') ↦
        let (out, ts) = began response c.current_timestamp in
        some (out, record c { current_timestamp = ts }, s')
  ]

  unfoldable pub get : Key → RcClient → S → Outcome RcClient S
  get k c s = elim (find k c.write_buffer) [
    | some v ↦ some (text v ∷ [], c, s)
    | none ↦ elim (serve (Request.get k) s) [
      | none ↦ none
      | some (response, s') ↦ some (got response, c, s')
    ]
  ]

  unfoldable pub put : Key → Value → RcClient → S → Outcome RcClient S
  put k v c s =
      if int_eq c.current_timestamp no_timestamp
      then some (first_begin ∷ [], c, s)
      else some ([], record c { write_buffer = assign k v c.write_buffer }, s)

  -- The loop makes a pair of each entry of the buffer, in the order of iteration.
  unfoldable pub end : RcClient → S → Outcome RcClient S
  end c s = elim (serve (Request.put c.current_timestamp c.write_buffer) s) [
    | none ↦ none
    | some (response, s') ↦ some (stored response, record c { write_buffer = [] }, s')
  ]

  abbrev pub rc_client : Client RcClient S
  rc_client = record { begin = begin; get = get; put = put; end = end }
