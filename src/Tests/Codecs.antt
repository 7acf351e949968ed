-- ===== src/Tests/Codecs.antt =====
-- Requests and responses in bytes: a string ends with a zero, and its own bytes are one more.
use lattice_flow.Base.{
  ℕ, zero, suc, ◌≡◌, refl, ap, ℤ, pos, negsuc, Bool, ◌∙◌, Option, true, false, none, some, List, [],
  ◌∷◌, length,
}
use lattice_flow.Std.Lexicographic.{Bytes}
use lattice_flow.Zmq.Proto.{Codec}
use lattice_flow.Kvs.Message.{Key, Value, Request, Response, begin_transaction, get, put, not_set}

write : Bytes → Bytes → Bytes
write [] rest = 0 ∷ rest
write (b ∷ bs) rest = suc b ∷ write bs rest

read : Bytes → Bytes × Bytes
read [] = ([], [])
read (zero ∷ rest) = ([], rest)
read (suc b ∷ rest) = let (bs, more) = read rest in (b ∷ bs, more)

read-write : (bs rest : Bytes) → read (write bs rest) ≡ (bs, rest)
unfolding read write
read-write [] rest = refl
read-write (b ∷ bs) rest = ap (λ (r : Bytes × Bytes). (b ∷ r.0, r.1)) (read-write bs rest)

write_pairs : List (Key × Value) → Bytes
unfolding write
write_pairs [] = []
write_pairs ((k, v) ∷ pairs) = write k (write v (write_pairs pairs))

read_pairs : ℕ → Bytes → List (Key × Value)
unfolding read
read_pairs zero bs = []
read_pairs (suc n) bs =
    let (k, rest) = read bs in let (v, more) = read rest in (k, v) ∷ read_pairs n more

read_pairs-write_pairs :
    (pairs : List (Key × Value)) → read_pairs (length pairs) (write_pairs pairs) ≡ pairs
unfolding read_pairs write_pairs
read_pairs-write_pairs [] = refl
read_pairs-write_pairs ((k, v) ∷ pairs) =
    rw (read-write k (write v (write_pairs pairs)), read-write v (write_pairs pairs))
      (ap (λ ps. (k, v) ∷ ps) (read_pairs-write_pairs pairs))

abbrev write_request : Request → Bytes
write_request begin_transaction = 0 ∷ []
write_request (get k) = 1 ∷ k
write_request (put (pos n) pairs) = 2 ∷ n ∷ length pairs ∷ write_pairs pairs
write_request (put (negsuc n) pairs) = 3 ∷ n ∷ length pairs ∷ write_pairs pairs
write_request not_set = []

abbrev read_put : (ℕ → ℤ) → Bytes → Request
read_put sign [] = not_set
read_put sign (n ∷ []) = not_set
read_put sign (n ∷ size ∷ bs) = put (sign n) (read_pairs size bs)

abbrev read_request : Bytes → Request
read_request [] = not_set
read_request (zero ∷ bs) = begin_transaction
read_request (suc zero ∷ bs) = get bs
read_request (suc (suc zero) ∷ bs) = read_put pos bs
read_request (suc (suc (suc n)) ∷ bs) = read_put negsuc bs

read_request-write_request : (request : Request) → read_request (write_request request) ≡ request
read_request-write_request begin_transaction = refl
read_request-write_request (get k) = refl
read_request-write_request (put (pos n) pairs) = ap (put (pos n)) (read_pairs-write_pairs pairs)
read_request-write_request (put (negsuc n) pairs) =
    ap (put (negsuc n)) (read_pairs-write_pairs pairs)
read_request-write_request not_set = refl

pub request_codec : Codec Request
request_codec = record {
  serialize = write_request;
  parse = read_request;
  parse-serialize = read_request-write_request;
}

abbrev write_flag : Bool → ℕ
write_flag false = 0
write_flag true = 1

abbrev read_flag : ℕ → Bool
read_flag zero = false
read_flag (suc n) = true

abbrev write_value : Option Value → Bytes
write_value none = []
write_value (some v) = 0 ∷ v

abbrev read_value : Bytes → Option Value
read_value [] = none
read_value (n ∷ v) = some v

abbrev write_timestamp : Option ℤ → Bytes → Bytes
write_timestamp none rest = 0 ∷ rest
write_timestamp (some (pos n)) rest = 1 ∷ n ∷ rest
write_timestamp (some (negsuc n)) rest = 2 ∷ n ∷ rest

abbrev failure : Response
failure = record { succeed = false; value = none; timestamp = none }

abbrev read_timestamped : Bool → (ℕ → ℤ) → Bytes → Response
read_timestamped b sign [] = failure
read_timestamped b sign (n ∷ bs) = record {
  succeed = b;
  value = read_value bs;
  timestamp = some (sign n);
}

abbrev write_response : Response → Bytes
write_response response =
    write_flag response.succeed ∷ write_timestamp response.timestamp (write_value response.value)

abbrev read_response : Bytes → Response
read_response [] = failure
read_response (f ∷ []) = failure
read_response (f ∷ zero ∷ bs) = record {
  succeed = read_flag f;
  value = read_value bs;
  timestamp = none;
}
read_response (f ∷ suc zero ∷ bs) = read_timestamped (read_flag f) pos bs
read_response (f ∷ suc (suc n) ∷ bs) = read_timestamped (read_flag f) negsuc bs

abbrev response : Bool → Option Value → Option ℤ → Response
response b v ts = record { succeed = b; value = v; timestamp = ts }

flag_lem : (b : Bool) → read_flag (write_flag b) ≡ b
flag_lem true = refl
flag_lem false = refl

value_lem : (v : Option Value) → read_value (write_value v) ≡ v
value_lem none = refl
value_lem (some v) = refl

response_lem :
    (b : Bool) (v : Option Value) (ts : Option ℤ)
    → read_response (write_response (response b v ts)) ≡ response b v ts
response_lem b v none =
    ap (λ c. response c (read_value (write_value v)) none) (flag_lem b)
    ∙ ap (λ u. response b u none) (value_lem v)
response_lem b v (some (pos n)) =
    ap (λ c. response c (read_value (write_value v)) (some (pos n))) (flag_lem b)
    ∙ ap (λ u. response b u (some (pos n))) (value_lem v)
response_lem b v (some (negsuc n)) =
    ap (λ c. response c (read_value (write_value v)) (some (negsuc n))) (flag_lem b)
    ∙ ap (λ u. response b u (some (negsuc n))) (value_lem v)

pub response_codec : Codec Response
response_codec = record {
  serialize = write_response;
  parse = read_response;
  parse-serialize = λ r. response_lem r.succeed r.value r.timestamp;
}
