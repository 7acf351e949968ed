-- ===== src/Zmq/HexDump.antt =====
-- src/zmq_util/hexdump.cc: a dump of bytes as text, on a stream with its default flags. `std::hex`
-- stays set, so that every index but the first is written in hex too, and the first is 0.
use lattice_flow.Base.{
  ℕ, zero, suc, ◌+◌, ◌-◌, ◌*◌, ◌/◌, ◌%◌, Bool, ◌&&◌, Option, none, some, List, [], ◌∷◌, ◌++◌, map,
  length, take, drop, ltb, leb, nat_beq, replicate, if◌then◌else◌,
}
use lattice_flow.Std.Lexicographic.{Bytes}
pub mod Lines
pub mod Reading
pub mod Dump

unfoldable pub hex_digit : ℕ → ℕ
hex_digit n = if ltb n 10 then 48 + n else 87 + n

-- The digits of `n` in front of `tail`; the fuel is the number of digits allowed.
unfoldable pub hex_digits : ℕ → ℕ → Bytes → Bytes
hex_digits zero n tail = tail
hex_digits (suc f) n tail =
    let more = hex_digits f (n / 16) (hex_digit (n % 16) ∷ tail) in
    if ltb n 16 then hex_digit n ∷ tail else more

-- `std::setw(w) << std::setfill('0') << std::hex << n`
unfoldable pub put_hex : ℕ → ℕ → Bytes
put_hex w n = let ds = hex_digits (suc n) n [] in replicate (w - length ds) b'0' ++ ds

-- `Hex`
unfoldable pub hex : Bytes → Bytes
hex [] = []
hex (b ∷ []) = put_hex 2 b
hex (b ∷ c ∷ bs) = put_hex 2 b ++ b' ' ∷ hex (c ∷ bs)

abbrev pub isprint : ℕ → Bool
isprint c = leb 32 c && leb c 126

-- `Ascii`
unfoldable pub ascii : Bytes → Bytes
ascii bs = map (λ c. if isprint c then c else b'.') bs

unfoldable pub full_row : ℕ → Bytes → Bytes
full_row i bs =
    put_hex 8 i
    ++ b' '
      ∷ b' '
      ∷ (hex (take 8 bs)
          ++ b' '
            ∷ b' '
            ∷ (hex (take 8 (drop 8 bs)) ++ b' ' ∷ b' ' ∷ b'|' ∷ (ascii (take 16 bs) ++ b'|' ∷ [])))

-- The row of the bytes that are left; `none`: the assertion fails.
unfoldable pub last_row : ℕ → Bytes → Option Bytes
last_row i bs =
    let n = length bs in
    if nat_beq n 0
    then some []
    else if leb n 8
    then some (
        put_hex 8 i
        ++ b' '
          ∷ b' '
          ∷ (hex bs
              ++ (replicate ((8 - n) * 3) b' '
                  ++ b' ' ∷ (replicate 24 b' ' ++ b' ' ∷ b' ' ∷ b'|' ∷ (ascii bs ++ b'|' ∷ [])))))
    else if leb n 16
    then some (
        put_hex 8 i
        ++ b' '
          ∷ b' '
          ∷ (hex (take 8 bs)
              ++ b' '
                ∷ b' '
                ∷ (hex (drop 8 bs)
                    ++ (replicate ((16 - n) * 3) b' '
                        ++ b' ' ∷ b' ' ∷ b'|' ∷ (ascii bs ++ b'|' ∷ [])))))
    else none

-- The loop over full rows: its text, and the index and the bytes that are left after it. The fuel is
-- the number of rows allowed.
unfoldable pub full_rows : ℕ → ℕ → Bytes → Bytes × ℕ × Bytes
full_rows zero i bs = ([], i, bs)
full_rows (suc f) i bs =
    let (text, j, left) = full_rows f (i + 16) (drop 16 bs) in
    if ltb 16 (length bs)
    then ((if nat_beq i 0 then [] else b'\n' ∷ []) ++ (full_row i bs ++ text), j, left)
    else ([], i, bs)

unfoldable pub hexdump : Bytes → Option Bytes
hexdump bs =
    if nat_beq (length bs) 0
    then some (
        put_hex 8 0
        ++ b' '
          ∷ (replicate 24 b' ' ++ b' ' ∷ (replicate 24 b' ' ++ b' ' ∷ b' ' ∷ b'|' ∷ b'|' ∷ [])))
    else let (text, i, left) = full_rows (length bs) 0 bs in
      elim (last_row i left) [
        | none ↦ none
        | some row ↦
            some (text ++ ((if ltb 0 (length left) && ltb 0 i then b'\n' ∷ [] else []) ++ row))
      ]
