-- ===== src/Zmq/HexDump/Lines.antt =====
-- The lines of a hex dump, and that a row is one line.
use lattice_flow.Base.{
  ℕ, zero, suc, ◌-◌, ◌/◌, ◌%◌, ◌≡◌, refl, false, List, [], ◌∷◌, ◌++◌, arith, length, take, drop,
  nat_beq, replicate, if◌then◌else◌,
}
use lattice_flow.Std.Lexicographic.{Bytes}
use lattice_flow.Zmq.HexDump.{hex_digit, hex_digits, put_hex, hex, ascii, isprint, full_row}

-- A byte in front of the first line.
abbrev onto_first : ℕ → List Bytes → List Bytes
onto_first c [] = (c ∷ []) ∷ []
onto_first c (l ∷ ls) = (c ∷ l) ∷ ls

-- A text split at its line ends.
unfoldable pub lines : Bytes → List Bytes
lines [] = [] ∷ []
lines (c ∷ s) = let rest = lines s in if nat_beq c b'\n' then [] ∷ rest else onto_first c rest

abbrev pub Unbroken : Bytes → Type 0
Unbroken [] = Unit
Unbroken (c ∷ s) = (nat_beq c b'\n' ≡ false) × Unbroken s

pub lines_end : (l : Bytes) → Unbroken l → lines l ≡ l ∷ []
unfolding lines
lines_end [] h = refl
lines_end (c ∷ l) (h, k) = rw (h, lines_end l k) refl

pub lines_more : (l s : Bytes) → Unbroken l → lines (l ++ b'\n' ∷ s) ≡ l ∷ lines s
unfolding lines
lines_more [] s h = refl
lines_more (c ∷ l) s (h, k) = rw (h, lines_more l s k) refl

Unbroken-append : (l s : Bytes) → Unbroken l → Unbroken s → Unbroken (l ++ s)
Unbroken-append [] s h k = k
Unbroken-append (c ∷ l) s (h, h') k = (h, Unbroken-append l s h' k)

replicate-Unbroken :
    (n c : ℕ) (s : Bytes) → nat_beq c b'\n' ≡ false → Unbroken s → Unbroken (replicate n c ++ s)
replicate-Unbroken zero c s h k = k
replicate-Unbroken (suc n) c s h k = (h, replicate-Unbroken n c s h k)

hex_digits-Unbroken : (f n : ℕ) (tail : Bytes) → Unbroken tail → Unbroken (hex_digits f n tail)
unfolding hex_digits hex_digit
hex_digits-Unbroken zero n tail h = h
hex_digits-Unbroken (suc f) n tail h =
    ground (arith, hex_digits-Unbroken f (n / 16) (hex_digit (n % 16) ∷ tail))

pub put_hex-Unbroken : (w n : ℕ) → Unbroken (put_hex w n)
unfolding put_hex
put_hex-Unbroken w n =
    let ds = hex_digits (suc n) n [] in
    replicate-Unbroken (w - length ds) b'0' ds refl (hex_digits-Unbroken (suc n) n [] tt)

hex-Unbroken : (bs : Bytes) → Unbroken (hex bs)
unfolding hex
hex-Unbroken [] = tt
hex-Unbroken (b ∷ []) = put_hex-Unbroken 2 b
hex-Unbroken (b ∷ c ∷ bs) =
    Unbroken-append (put_hex 2 b) (b' ' ∷ hex (c ∷ bs)) (put_hex-Unbroken 2 b)
      (refl, hex-Unbroken (c ∷ bs))

printed : (c : ℕ) → nat_beq (if isprint c then c else b'.') b'\n' ≡ false
printed c = ground arith

ascii-Unbroken : (bs : Bytes) → Unbroken (ascii bs)
unfolding ascii
ascii-Unbroken [] = tt
ascii-Unbroken (b ∷ bs) = (printed b, ascii-Unbroken bs)

bars-Unbroken :
    (n : ℕ) (bs : Bytes)
    → Unbroken (replicate n b' ' ++ b' ' ∷ b' ' ∷ b'|' ∷ (ascii bs ++ b'|' ∷ []))
bars-Unbroken n bs =
    replicate-Unbroken n b' ' (b' ' ∷ b' ' ∷ b'|' ∷ (ascii bs ++ b'|' ∷ [])) refl
      (refl, (refl, (refl, Unbroken-append (ascii bs) (b'|' ∷ []) (ascii-Unbroken bs) (refl, tt))))

-- Two columns of digits behind an index, with spaces.
pub columns-Unbroken :
    (i : ℕ) (xs ys bs : Bytes) (m n : ℕ)
    → Unbroken (
        put_hex 8 i
        ++ b' '
          ∷ b' '
          ∷ (hex xs
              ++ (replicate m b' '
                  ++ (hex ys
                      ++ (replicate n b' ' ++ b' ' ∷ b' ' ∷ b'|' ∷ (ascii bs ++ b'|' ∷ []))))))
columns-Unbroken i xs ys bs m n =
    let end = replicate n b' ' ++ b' ' ∷ b' ' ∷ b'|' ∷ (ascii bs ++ b'|' ∷ []) in
    let second = replicate m b' ' ++ (hex ys ++ end) in
    Unbroken-append (put_hex 8 i) (b' ' ∷ b' ' ∷ (hex xs ++ second)) (put_hex-Unbroken 8 i) (
      refl,
      (
        refl,
        Unbroken-append (hex xs) second (hex-Unbroken xs) (
            replicate-Unbroken m b' ' (hex ys ++ end) refl
              (Unbroken-append (hex ys) end (hex-Unbroken ys) (bars-Unbroken n bs))),
      ),
    )

pub full_row-Unbroken : (i : ℕ) (bs : Bytes) → Unbroken (full_row i bs)
unfolding full_row
full_row-Unbroken i bs = columns-Unbroken i (take 8 bs) (take 8 (drop 8 bs)) (take 16 bs) 2 0
