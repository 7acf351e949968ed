-- ===== src/Kvs/Client/ReadUncommitted.antt =====
-- src/key_value_stores/ruc_client.cc.
use lattice_flow.Base.{ℤ, int_eq, none, some, [], ◌∷◌, if◌then◌else◌}
use lattice_flow.Kvs.Message.{Key, Value, Request, begin_transaction}
use lattice_flow.Kvs.Client.{Client, Outcome, first_begin, end_not_supported}
use lattice_flow.Kvs.Client.Session.{Serve, no_timestamp, began, got, stored}

pub record RucClient : Type 0 where
  pub current_timestamp : ℤ

abbrev pub new_client : RucClient
new_client = record { current_timestamp = no_timestamp }

module _ {S : Type 0} (serve : Serve S) where
  unfoldable pub begin : RucClient → S → Outcome RucClient S
  begin c s = elim (serve begin_transaction s) [
    | none ↦ none
    | some (response, s') ↦
        let (out, ts) = began response c.current_timestamp in
        some (out, record c { current_timestamp = ts }, s')
  ]

  unfoldable pub get : Key → RucClient → S → Outcome RucClient S
  get k c s = elim (serve (Request.get k) s) [
    | none ↦ none
    | some (response, s') ↦ some (got response, c, s')
  ]

  unfoldable pub put : Key → Value → RucClient → S → Outcome RucClient S
  put k v c s =
      if int_eq c.current_timestamp no_timestamp
      then some (first_begin ∷ [], c, s)
      else elim (serve (Request.put c.current_timestamp ((k, v) ∷ [])) s) [
        | none ↦ none
        | some (response, s') ↦ some (stored response, c, s')
      ]

  unfoldable pub end : RucClient → S → Outcome RucClient S
  end c s = some (end_not_supported ∷ [], c, s)

  abbrev pub ruc_client : Client RucClient S
  ruc_client = record { begin = begin; get = get; put = put; end = end }
