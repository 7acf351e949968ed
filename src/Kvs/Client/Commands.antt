-- ===== src/Kvs/Client/Commands.antt =====
-- What a user types, and what the client reads: commands as text.
use lattice_flow.Base.{ℕ, ◌≡◌, refl, false, [], ◌∷◌, ◌++◌, arith, nat_beq}
use lattice_flow.Std.Lexicographic.{Bytes, bytes_eq}
use lattice_flow.Kvs.Client.{Command, begin, get, put, end, other, codes, split, dispatch, parse}

-- No character of a text is the delimiter.
abbrev pub Lacks : ℕ → Bytes → Type 0
Lacks delim [] = Unit
Lacks delim (c ∷ s) = (nat_beq c delim ≡ false) × Lacks delim s

-- A text with a first character and no space.
abbrev pub IsWord : Bytes → Type 0
IsWord [] = ⊥
IsWord (c ∷ s) = Lacks b' ' (c ∷ s)

abbrev pub IsTyped : Command → Type 0
IsTyped begin = Unit
IsTyped (get k) = IsWord k
IsTyped (put k v) = IsWord k × IsWord v
IsTyped end = Unit
IsTyped other = ⊥

-- The line that stands for a command.
abbrev pub show : Command → Bytes
show begin = codes "BEGIN TRANSACTION"
show (get k) = codes "GET " ++ k
show (put k v) = codes "PUT " ++ (k ++ b' ' ∷ v)
show end = codes "END TRANSACTION"
show other = []

split-word : (delim c : ℕ) (s : Bytes) → Lacks delim (c ∷ s) → split (c ∷ s) delim ≡ (c ∷ s) ∷ []
unfolding split
split-word delim c [] (h, k) = ground arith
split-word delim c (d ∷ s) (h, k) = ground (arith, split-word delim d s k)

split-append :
    (delim c : ℕ) (s rest : Bytes)
    → Lacks delim (c ∷ s)
    → split ((c ∷ s) ++ delim ∷ rest) delim ≡ (c ∷ s) ∷ split rest delim
unfolding split
split-append delim c [] rest (h, k) = ground arith
split-append delim c (d ∷ s) rest (h, k) = ground (arith, split-append delim d s rest k)

dispatch-get : (k : Bytes) → dispatch (codes "GET" ∷ k ∷ []) ≡ get k
unfolding dispatch bytes_eq
dispatch-get k = refl

dispatch-put : (k v : Bytes) → dispatch (codes "PUT" ∷ k ∷ v ∷ []) ≡ put k v
unfolding dispatch bytes_eq
dispatch-put k v = refl

get_line : Lacks b' ' (codes "GET")
get_line = (refl, (refl, (refl, tt)))

put_line : Lacks b' ' (codes "PUT")
put_line = (refl, (refl, (refl, tt)))

-- A client reads the four commands as they are typed: the line of a command, whose key and value
-- are not empty and have no space, is read as that command.
pub parse-show : (c : Command) → IsTyped c → parse (show c) ≡ c
unfolding parse
parse-show begin h = unfold bytes_eq in refl
parse-show (get []) h = absurd h
parse-show (get (c ∷ k)) h =
    rw (split-append b' ' b'G' (codes "ET") (c ∷ k) get_line, split-word b' ' c k h)
      (dispatch-get (c ∷ k))
parse-show (put [] v) (h, w) = absurd h
parse-show (put (c ∷ k) []) (h, w) = absurd w
parse-show (put (c ∷ k) (d ∷ v)) (h, w) =
    rw
      (
        split-append b' ' b'P' (codes "UT") ((c ∷ k) ++ b' ' ∷ d ∷ v) put_line,
        split-append b' ' c k (d ∷ v) h,
        split-word b' ' d v w,
      )
      (dispatch-put (c ∷ k) (d ∷ v))
parse-show end h = unfold bytes_eq in refl
parse-show other h = absurd h
