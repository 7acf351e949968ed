-- ===== src/Zmq/HexDump/Reading.antt =====
-- A row of a hex dump, read back.
use mathlib.Core.List.{append_assoc, append-nil}
use lattice_flow.Base.{
  ℕ, zero, suc, ◌+◌, ◌-◌, ◌*◌, ◌/◌, ◌%◌, ◌<◌, ◌≤◌, ◌≡◌, refl, ◌∙◌, ap, subst, true, false, some, [],
  ◌∷◌, ◌++◌, arith, length, take, drop, ltb, nat_beq, replicate, if◌then◌else◌, leb, Bool-cases,
  inl, inr,
}
use lattice_flow.Std.Lexicographic.{Bytes}
use lattice_flow.Zmq.HexDump.Lines.{Unbroken, columns-Unbroken}
use lattice_flow.Zmq.HexDump.{hex_digit, hex_digits, put_hex, hex, ascii, full_row, last_row}

-- The value of a digit in hex.
abbrev pub unhex : ℕ → ℕ
unhex c = if ltb c 58 then c - 48 else c - 87

-- The bytes whose digits stand before a bar, with spaces between them.
unfoldable pub read_hex : Bytes → Bytes
read_hex [] = []
read_hex (c ∷ []) = []
read_hex (c ∷ d ∷ s) =
    let after = read_hex (d ∷ s) in
    let rest = read_hex s in
    if nat_beq c b' ' then after else if nat_beq c b'|' then [] else (unhex c * 16 + unhex d) ∷ rest

-- What stands after the first space.
unfoldable pub after_space : Bytes → Bytes
after_space [] = []
after_space (c ∷ s) = let rest = after_space s in if nat_beq c b' ' then s else rest

abbrev pub AreBytes : Bytes → Type 0
AreBytes [] = Unit
AreBytes (b ∷ bs) = (b < 256) × AreBytes bs

abbrev Spaceless : Bytes → Type 0
Spaceless [] = Unit
Spaceless (c ∷ s) = (nat_beq c b' ' ≡ false) × Spaceless s

hex_digits-Spaceless : (f n : ℕ) (tail : Bytes) → Spaceless tail → Spaceless (hex_digits f n tail)
unfolding hex_digits hex_digit
hex_digits-Spaceless zero n tail h = h
hex_digits-Spaceless (suc f) n tail h =
    ground (arith, hex_digits-Spaceless f (n / 16) (hex_digit (n % 16) ∷ tail))

after_space_lem : (ds s : Bytes) → Spaceless ds → after_space (ds ++ b' ' ∷ s) ≡ s
unfolding after_space
after_space_lem [] s h = refl
after_space_lem (d ∷ ds) s (h, k) = ground (arith, after_space_lem ds s k)

replicate-Spaceless : (n : ℕ) (ds : Bytes) → Spaceless ds → Spaceless (replicate n b'0' ++ ds)
replicate-Spaceless zero ds h = h
replicate-Spaceless (suc n) ds h = (refl, replicate-Spaceless n ds h)

after_space-put_hex : (w n : ℕ) (s : Bytes) → after_space (put_hex w n ++ b' ' ∷ s) ≡ s
unfolding put_hex
after_space-put_hex w n s =
    let ds = hex_digits (suc n) n [] in
    after_space_lem (replicate (w - length ds) b'0' ++ ds) s
      (replicate-Spaceless (w - length ds) ds (hex_digits-Spaceless (suc n) n [] tt))

put_hex_lem : (b : ℕ) → b < 256 → put_hex 2 b ≡ hex_digit (b / 16) ∷ hex_digit (b % 16) ∷ []
unfolding put_hex hex_digits hex_digit
put_hex_lem zero h = refl
put_hex_lem (suc b) h = ground arith

digit_lem :
    (n : ℕ)
    → n < 16
    → (unhex (hex_digit n) ≡ n)
      × (nat_beq (hex_digit n) b' ' ≡ false)
      × (nat_beq (hex_digit n) b'|' ≡ false)
unfolding hex_digit
digit_lem n h = ground arith

read_hex-put_hex : (b : ℕ) (s : Bytes) → b < 256 → read_hex (put_hex 2 b ++ s) ≡ b ∷ read_hex s
unfolding read_hex
read_hex-put_hex b s h =
    rw (put_hex_lem b h)
      (ground (arith, digit_lem (b / 16) (omega arith), digit_lem (b % 16) (omega arith)))

read_hex_space : (s : Bytes) → read_hex (b' ' ∷ s) ≡ read_hex s
unfolding read_hex
read_hex_space [] = refl
read_hex_space (c ∷ s) = refl

read_hex_spaces : (n : ℕ) (s : Bytes) → read_hex (replicate n b' ' ++ s) ≡ read_hex s
read_hex_spaces zero s = refl
read_hex_spaces (suc n) s = read_hex_space (replicate n b' ' ++ s) ∙ read_hex_spaces n s

read_hex_bar : (s : Bytes) → read_hex (b'|' ∷ (s ++ b'|' ∷ [])) ≡ []
unfolding read_hex
read_hex_bar [] = refl
read_hex_bar (c ∷ s) = refl

read_hex-hex : (bs s : Bytes) → AreBytes bs → read_hex (hex bs ++ s) ≡ bs ++ read_hex s
unfolding hex
read_hex-hex [] s h = refl
read_hex-hex (b ∷ []) s (h, k) = read_hex-put_hex b s h
read_hex-hex (b ∷ c ∷ bs) s (h, k) =
    ap read_hex (append_assoc (put_hex 2 b) (b' ' ∷ hex (c ∷ bs)) s)
    ∙ read_hex-put_hex b (b' ' ∷ hex (c ∷ bs) ++ s) h
    ∙ ap (λ l. b ∷ l) (read_hex_space (hex (c ∷ bs) ++ s) ∙ read_hex-hex (c ∷ bs) s k)

-- The bytes of a row: those whose digits stand between its index and its bar.
abbrev pub row_bytes : Bytes → Bytes
row_bytes row = read_hex (after_space row)

-- Two columns of digits behind an index, with spaces, and then no more bytes.
columns_lem :
    (i : ℕ) (xs ys rest : Bytes) (m : ℕ)
    → AreBytes xs
    → AreBytes ys
    → read_hex rest ≡ []
    → row_bytes (put_hex 8 i ++ b' ' ∷ b' ' ∷ (hex xs ++ (replicate m b' ' ++ (hex ys ++ rest))))
      ≡ xs ++ ys
columns_lem i xs ys rest m h k e =
    let second = hex ys ++ rest in
    ap read_hex (after_space-put_hex 8 i (b' ' ∷ (hex xs ++ (replicate m b' ' ++ second))))
    ∙ read_hex_space (hex xs ++ (replicate m b' ' ++ second))
    ∙ read_hex-hex xs (replicate m b' ' ++ second) h
    ∙ ap (λ l. xs ++ l)
        (read_hex_spaces m second ∙ read_hex-hex ys rest k ∙ ap (λ l. ys ++ l) e ∙ append-nil ys)

bar_lem :
    (n : ℕ) (text : Bytes)
    → read_hex (replicate n b' ' ++ b' ' ∷ b' ' ∷ b'|' ∷ (text ++ b'|' ∷ [])) ≡ []
bar_lem n text =
    read_hex_spaces n (b' ' ∷ b' ' ∷ b'|' ∷ (text ++ b'|' ∷ []))
    ∙ read_hex_spaces 2 (b'|' ∷ (text ++ b'|' ∷ []))
    ∙ read_hex_bar text

take-AreBytes : (n : ℕ) (bs : Bytes) → AreBytes bs → AreBytes (take n bs)
take-AreBytes zero bs h = tt
take-AreBytes (suc n) [] h = tt
take-AreBytes (suc n) (b ∷ bs) (h, k) = (h, take-AreBytes n bs k)

pub drop-AreBytes : (n : ℕ) (bs : Bytes) → AreBytes bs → AreBytes (drop n bs)
drop-AreBytes zero bs h = h
drop-AreBytes (suc n) [] h = tt
drop-AreBytes (suc n) (b ∷ bs) (h, k) = drop-AreBytes n bs k

pub take-drop : (n : ℕ) (bs : Bytes) → take n bs ++ drop n bs ≡ bs
take-drop zero bs = refl
take-drop (suc n) [] = refl
take-drop (suc n) (b ∷ bs) = ap (λ l. b ∷ l) (take-drop n bs)

take_twice : (m n k : ℕ) (bs : Bytes) → m + n ≡ k → take m bs ++ take n (drop m bs) ≡ take k bs
take_twice zero n k bs e = let same : n ≡ k = omega arith in ap (λ j. take j bs) same
take_twice (suc m) n zero bs e = absurd (omega arith)
take_twice (suc m) zero (suc k) [] e = refl
take_twice (suc m) (suc n) (suc k) [] e = refl
take_twice (suc m) n (suc k) (b ∷ bs) e = ap (λ l. b ∷ l) (take_twice m n k bs (omega arith))

pub full_row_lem : (i : ℕ) (bs : Bytes) → AreBytes bs → row_bytes (full_row i bs) ≡ take 16 bs
unfolding full_row
full_row_lem i bs h =
    columns_lem i (take 8 bs) (take 8 (drop 8 bs))
      (b' ' ∷ b' ' ∷ b'|' ∷ (ascii (take 16 bs) ++ b'|' ∷ [])) 2 (take-AreBytes 8 bs h)
      (take-AreBytes 8 (drop 8 bs) (drop-AreBytes 8 bs h)) (bar_lem 0 (ascii (take 16 bs)))
    ∙ take_twice 8 8 16 bs refl

space_moved : (m : ℕ) (s : Bytes) → replicate (suc m) b' ' ++ s ≡ replicate m b' ' ++ b' ' ∷ s
space_moved zero s = refl
space_moved (suc m) s = ap (λ l. b' ' ∷ l) (space_moved m s)

short_row-Unbroken :
    (i : ℕ) (bs : Bytes) (m : ℕ)
    → Unbroken (
        put_hex 8 i
        ++ b' '
          ∷ b' '
          ∷ (hex bs
              ++ (replicate m b' '
                  ++ b' ' ∷ (replicate 24 b' ' ++ b' ' ∷ b' ' ∷ b'|' ∷ (ascii bs ++ b'|' ∷ [])))))
unfolding hex
short_row-Unbroken i bs m =
    subst (λ s. Unbroken (put_hex 8 i ++ b' ' ∷ b' ' ∷ (hex bs ++ s)))
      (space_moved m (replicate 24 b' ' ++ b' ' ∷ b' ' ∷ b'|' ∷ (ascii bs ++ b'|' ∷ [])))
      (columns-Unbroken i bs [] bs (suc m) 24)

pub last_row_lem :
    (i : ℕ) (bs : Bytes)
    → AreBytes bs
    → 0 < length bs
    → length bs ≤ 16
    → (row : Bytes) × (last_row i bs ≡ some row) × Unbroken row × (row_bytes row ≡ bs)
unfolding last_row hex
last_row_lem i bs h some_left few =
    let n = length bs in
    let not_none : nat_beq n 0 ≡ false = ground arith in
    elim (Bool-cases (leb n 8)) [
      | inl short ↦ (
        _,
        rw (last_row, not_none, short) refl,
        short_row-Unbroken i bs ((8 - n) * 3),
        columns_lem i bs [] _ ((8 - n) * 3) h tt (read_hex_space _ ∙ bar_lem 24 (ascii bs))
            ∙ append-nil bs,
      )
      | inr long ↦
          let fits : leb n 16 ≡ true = ground arith in
          (
            _,
            rw (last_row, not_none, long, fits) refl,
            columns-Unbroken i (take 8 bs) (drop 8 bs) bs 2 ((16 - n) * 3),
            columns_lem i (take 8 bs) (drop 8 bs) _ 2 (take-AreBytes 8 bs h) (drop-AreBytes 8 bs h)
                  (bar_lem ((16 - n) * 3) (ascii bs))
                ∙ take-drop 8 bs,
          )
    ]

pub length-drop : (n : ℕ) (bs : Bytes) → length (drop n bs) ≡ length bs - n
length-drop zero bs = omega arith
length-drop (suc n) [] = omega arith
length-drop (suc n) (b ∷ bs) = ground (arith, length-drop n bs)
