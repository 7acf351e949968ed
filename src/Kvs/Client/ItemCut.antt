-- ===== src/Kvs/Client/ItemCut.antt =====
-- src/key_value_stores/ici_client.cc.
use lattice_flow.Base.{ℤ, int_eq, none, some, [], ◌∷◌, if◌then◌else◌}
use lattice_flow.Std.Assoc.{Assoc, find, assign}
use lattice_flow.Std.Lexicographic.{bytes_eq}
use lattice_flow.Kvs.Message.{Key, Value, Request, Response, begin_transaction}
use lattice_flow.Kvs.Client.{Client, Outcome, text, first_begin}
use lattice_flow.Kvs.Client.Session.{Serve, no_timestamp, began, got, stored, value_of}

pub record IciClient : Type 0 where
  pub current_timestamp : ℤ
  pub write_buffer : Assoc Key Value
  pub read_buffer : Assoc Key Value

abbrev pub new_client : IciClient
new_client = record { current_timestamp = no_timestamp; write_buffer = []; read_buffer = [] }

module _ {S : Type 0} (serve : Serve S) where
  unfoldable pub begin : IciClient → S → Outcome IciClient S
  begin c s = elim (serve begin_transaction s) [
    | none ↦ none
    | some (response, s') ↦
        let (out, ts) = began response c.current_timestamp in
        some (out, record c { current_timestamp = ts }, s')
  ]

  -- A value that was read goes into the buffer.
  unfoldable pub remember : Key → Response → IciClient → IciClient
  remember k response c =
      if response.succeed
      then record c { read_buffer = assign k (value_of response) c.read_buffer }
      else c

  unfoldable pub get : Key → IciClient → S → Outcome IciClient S
  get k c s = elim (find k c.write_buffer) [
    | some v ↦ some (text v ∷ [], c, s)
    | none ↦ elim (find k c.read_buffer) [
      | some v ↦ some (text v ∷ [], c, s)
      | none ↦ elim (serve (Request.get k) s) [
        | none ↦ none
        | some (response, s') ↦ some (got response, remember k response c, s')
      ]
    ]
  ]

  unfoldable pub put : Key → Value → IciClient → S → Outcome IciClient S
  put k v c s =
      if int_eq c.current_timestamp no_timestamp
      then some (first_begin ∷ [], c, s)
      else some ([], record c { write_buffer = assign k v c.write_buffer }, s)

  -- The loop makes a pair of each entry of the buffer, in the order of iteration.
  unfoldable pub end : IciClient → S → Outcome IciClient S
  end c s = elim (serve (Request.put c.current_timestamp c.write_buffer) s) [
    | none ↦ none
    | some (response, s') ↦
        some (stored response, record c { write_buffer = []; read_buffer = [] }, s')
  ]

  abbrev pub ici_client : Client IciClient S
  ici_client = record { begin = begin; get = get; put = put; end = end }
