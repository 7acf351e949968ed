-- ===== src/Kvs/Client.antt =====
-- src/key_value_stores/client.h, client.cc and util.cc: the commands that a client reads, and the
-- operations that carry them out.
pub mod Commands
pub mod Session
pub mod ReadUncommitted
pub mod ReadCommitted
pub mod ItemCut
pub mod Isolation
pub mod Commit
use Prim.Native.Char.{code}
use Prim.Native.String.{String}
use lattice_flow.Base.{
  ℕ, ℤ, Bool, ◌&&◌, Option, none, some, List, [], ◌∷◌, ◌++◌, nat_beq, if◌then◌else◌, ◌==◌, Eq,
}
use lattice_flow.Std.Lexicographic.{Bytes, bytes_eq}
use lattice_flow.Kvs.Message.{Key, Value}

-- What a client writes to the standard output.
pub data Line : Type 0 where
  number : ℤ → Line
  text : Value → Line
  error : Line
  first_begin : Line
  end_not_supported : Line
  invalid_command : Bytes → Line
  usage : Line

-- What an operation writes, and the client and the rest of the world after it. `none`: it waits for
-- an answer for ever.
abbrev pub Outcome : Type 0 → Type 0 → Type 0
Outcome C S = Option (List Line × C × S)

-- The virtual methods of `Client`.
pub record Client (C S : Type 0) : Type 0 where
  pub begin : C → S → Outcome C S
  pub get : Key → C → S → Outcome C S
  pub put : Key → Value → C → S → Outcome C S
  pub end : C → S → Outcome C S

-- The four commands, and all other input.
pub data Command : Type 0 where
  begin : Command
  get : Key → Command
  put : Key → Value → Command
  end : Command
  other : Command

abbrev pub codes : String → Bytes
codes String.[] = []
codes (String.◌∷◌ c s) = code c ∷ codes s

-- A character before the first part.
abbrev pub extend_first : ℕ → List Bytes → List Bytes
extend_first c [] = (c ∷ []) ∷ []
extend_first c (part ∷ parts) = (c ∷ part) ∷ parts

-- `split`: `getline` takes the part up to a delimiter or to the end, and there is none after the end.
unfoldable pub split : Bytes → ℕ → List Bytes
split [] delim = []
split (c ∷ s) delim =
    let parts = split s delim in if nat_beq c delim then [] ∷ parts else extend_first c parts

-- The tests of `repl`, in their order.
unfoldable pub dispatch : List Bytes → Command
dispatch [] = other
dispatch (a ∷ []) = other
dispatch (a ∷ b ∷ []) =
    if a == codes "BEGIN" && b == codes "TRANSACTION"
    then begin
    else if a == codes "GET"
    then get b
    else if a == codes "END" && b == codes "TRANSACTION"
    then end
    else other
dispatch (a ∷ b ∷ c ∷ []) = if a == codes "PUT" then put b c else other
dispatch (a ∷ b ∷ c ∷ d ∷ rest) = other

unfoldable pub parse : Bytes → Command
unfolding dispatch split
parse input = dispatch (split input b' ')

module _ {C S : Type 0} (client : Client C S) where
  abbrev pub execute : Bytes → Command → C → S → Outcome C S
  execute input begin c s = client.begin c s
  execute input (get k) c s = client.get k c s
  execute input (put k v) c s = client.put k v c s
  execute input end c s = client.end c s
  execute input other c s = some (invalid_command input ∷ usage ∷ [], c, s)

  -- The loop of `repl` over the lines of the standard input.
  unfoldable pub repl : List Bytes → C → S → Outcome C S
  repl [] c s = some ([], c, s)
  repl (input ∷ inputs) c s = elim (execute input (parse input) c s) [
    | none ↦ none
    | some (out, c', s') ↦ elim (repl inputs c' s') [
      | none ↦ none
      | some (rest, c'', s'') ↦ some (out ++ rest, c'', s'')
    ]
  ]
