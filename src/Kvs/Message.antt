-- ===== src/Kvs/Message.antt =====
-- src/key_value_stores/message.proto: the messages between clients and servers, as the code reads
-- and writes them. How protocol buffers lay them out in bytes is not modelled.
use lattice_flow.Base.{ℤ, Bool, Option, List}
use lattice_flow.Std.Lexicographic.{Bytes}

abbrev pub Key : Type 0
Key = Bytes

abbrev pub Value : Type 0
Value = Bytes

pub data Request : Type 0 where
  begin_transaction : Request
  get : Key → Request
  put : ℤ → List (Key × Value) → Request
  not_set : Request

pub record Response : Type 0 where
  pub succeed : Bool
  pub value : Option Value
  pub timestamp : Option ℤ
