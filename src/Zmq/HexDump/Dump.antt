-- ===== src/Zmq/HexDump/Dump.antt =====
-- A whole hex dump, read back.
use mathlib.Core.List.{append_assoc, append-nil}
use lattice_flow.Base.{
  ℕ, zero, suc, ◌+◌, ◌<◌, ◌≤◌, ◌≡◌, refl, sym, ◌∙◌, ap, subst, true, false, some, List, [], ◌∷◌,
  ◌++◌, arith, length, take, drop, ltb, nat_beq, if◌then◌else◌, Bool-cases, inl, inr,
}
use lattice_flow.Std.Lexicographic.{Bytes}
use lattice_flow.Zmq.HexDump.{
  full_row, last_row, full_rows, hexdump, put_hex, hex_digits, hex_digit,
}
use lattice_flow.Zmq.HexDump.Lines.{lines, Unbroken, lines_end, lines_more, full_row-Unbroken}
use lattice_flow.Zmq.HexDump.Reading.{
  row_bytes, read_hex, after_space, AreBytes, full_row_lem, last_row_lem, length-drop,
  drop-AreBytes, take-drop,
}

abbrev read_rows : List Bytes → Bytes
read_rows [] = []
read_rows (row ∷ rows) = row_bytes row ++ read_rows rows

-- The bytes whose digits stand in the lines of a dump.
abbrev pub read_dump : Bytes → Bytes
read_dump text = read_rows (lines text)

read_dump_end : (row : Bytes) → Unbroken row → read_dump row ≡ row_bytes row
read_dump_end row h = ap read_rows (lines_end row h) ∙ append-nil (row_bytes row)

read_dump_more :
    (row s : Bytes) → Unbroken row → read_dump (row ++ b'\n' ∷ s) ≡ row_bytes row ++ read_dump s
read_dump_more row s h = ap read_rows (lines_more row s h)

full_rows_done :
    (f i : ℕ) (bs : Bytes) → ltb 16 (length bs) ≡ false → full_rows f i bs ≡ ([], i, bs)
unfolding full_rows
full_rows_done zero i bs h = refl
full_rows_done (suc f) i bs h = rw (full_rows, h) refl

full_rows_more :
    (f i : ℕ) (bs : Bytes)
    → ltb 16 (length bs) ≡ true
    → full_rows (suc f) i bs ≡ (
      (if nat_beq i 0 then [] else b'\n' ∷ [])
          ++ (full_row i bs ++ (full_rows f (i + 16) (drop 16 bs)).0),
      (full_rows f (i + 16) (drop 16 bs)).1,
      (full_rows f (i + 16) (drop 16 bs)).2,
    )
unfolding full_rows
full_rows_more f i bs h = rw (full_rows, h) refl

-- What the loop over full rows comes to, from a row that is not the first: behind a line end, its text
-- and then the last row are read back as the bytes that it has begun with.
abbrev Dumped : ℕ → Bytes → Bytes × ℕ × Bytes → Type 0
Dumped i bs (text, j, left) =
    (row : Bytes) × (s : Bytes) × (last_row j left ≡ some row)
    × (text ++ b'\n' ∷ row ≡ b'\n' ∷ s)
    × (read_dump s ≡ bs)
    × (0 < length left)
    × (i ≤ j)

last_Dumped :
    (f i : ℕ) (bs : Bytes)
    → AreBytes bs
    → 0 < length bs
    → ltb 16 (length bs) ≡ false
    → Dumped i bs (full_rows f i bs)
last_Dumped f i bs h some_left few =
    let (row, e, one_line, read) = last_row_lem i bs h some_left (ground arith) in
    subst (Dumped i bs) (sym (full_rows_done f i bs few))
      (row, row, e, refl, read_dump_end row one_line ∙ read, some_left, omega arith)

rows_joined :
    (first text row s : Bytes)
    → text ++ b'\n' ∷ row ≡ b'\n' ∷ s
    → (first ++ text) ++ b'\n' ∷ row ≡ first ++ b'\n' ∷ s
rows_joined first text row s e = append_assoc first text (b'\n' ∷ row) ∙ ap (λ l. first ++ l) e

-- A full row, and what comes after it.
full_row-read_dump :
    (i : ℕ) (bs s : Bytes)
    → AreBytes bs
    → read_dump s ≡ drop 16 bs
    → read_dump (full_row i bs ++ b'\n' ∷ s) ≡ bs
full_row-read_dump i bs s h e =
    read_dump_more (full_row i bs) s (full_row-Unbroken i bs)
    ∙ ap (λ l. l ++ read_dump s) (full_row_lem i bs h)
    ∙ ap (λ l. take 16 bs ++ l) e
    ∙ take-drop 16 bs

full_rows-Dumped :
    (f i : ℕ) (bs : Bytes)
    → AreBytes bs
    → 0 < length bs
    → length bs ≤ f + 16
    → nat_beq i 0 ≡ false
    → Dumped i bs (full_rows f i bs)
full_rows-Dumped zero i bs h some_left enough later =
    last_Dumped zero i bs h some_left (ground arith)
full_rows-Dumped (suc f) i bs h some_left enough later = elim (Bool-cases (ltb 16 (length bs))) [
  | inr few ↦ last_Dumped (suc f) i bs h some_left few
  | inl many ↦
      let shorter : length (drop 16 bs) + 16 ≡ length bs = ground (arith, length-drop 16 bs) in
      let (row, s, e, begins, read, left, on) =
        full_rows-Dumped f (i + 16) (drop 16 bs) (drop-AreBytes 16 bs h) (ground arith)
          (omega arith) (ground arith) in
      let rows = full_rows f (i + 16) (drop 16 bs) in
      subst (Dumped i bs) (sym (full_rows_more f i bs many)) (
        row,
        full_row i bs ++ b'\n' ∷ s,
        e,
        rw later (ap (λ l. b'\n' ∷ l) (rows_joined (full_row i bs) rows.0 row s begins)),
        full_row-read_dump i bs s h read,
        left,
        omega arith,
      )
]

-- A dump of more than nothing is the text of the loop, a line end where there is one, and the last row.
hexdump_loop :
    (b : ℕ) (bs row : Bytes)
    → last_row (full_rows (length (b ∷ bs)) 0 (b ∷ bs)).1 (full_rows (length (b ∷ bs)) 0 (b ∷ bs)).2
      ≡ some row
    → ltb 0 (length (full_rows (length (b ∷ bs)) 0 (b ∷ bs)).2) ≡ true
    → hexdump (b ∷ bs)
      ≡ some (
          (full_rows (length (b ∷ bs)) 0 (b ∷ bs)).0
          ++ ((if ltb 0 (full_rows (length (b ∷ bs)) 0 (b ∷ bs)).1 then b'\n' ∷ [] else []) ++ row))
unfolding hexdump
hexdump_loop b bs row f more =
    let not_empty : nat_beq (length (b ∷ bs)) 0 ≡ false = ground arith in
    rw (hexdump, not_empty, f, more) refl

hexdump_rows :
    (b : ℕ) (bs text : Bytes) (j : ℕ) (left row : Bytes)
    → full_rows (length (b ∷ bs)) 0 (b ∷ bs) ≡ (text, j, left)
    → last_row j left ≡ some row
    → 0 < length left
    → hexdump (b ∷ bs) ≡ some (text ++ ((if ltb 0 j then b'\n' ∷ [] else []) ++ row))
hexdump_rows b bs text j left row e f some_left =
    let more : ltb 0 (length left) ≡ true = ground arith in
    hexdump_loop b bs row (ap (λ r. last_row r.1 r.2) e ∙ f) (ap (λ r. ltb 0 (length r.2)) e ∙ more)
    ∙ ap (λ r. some (r.0 ++ ((if ltb 0 r.1 then b'\n' ∷ [] else []) ++ row))) e

-- A dump loses no byte: no assertion in it fails, and the bytes of a message are read back from the
-- digits in the lines of its dump, one line after the other.
pub read_dump-hexdump :
    (bs : Bytes) → AreBytes bs → (text : Bytes) × (hexdump bs ≡ some text) × (read_dump text ≡ bs)
unfolding hexdump lines put_hex hex_digits hex_digit read_hex after_space
read_dump-hexdump [] h = (_, refl, refl)
read_dump-hexdump (b ∷ bs) h = elim (Bool-cases (ltb 16 (length (b ∷ bs)))) [
  | inr few ↦
      let (row, e, one_line, read) = last_row_lem 0 (b ∷ bs) h (ground arith) (ground arith) in
      (
        row,
        hexdump_rows b bs [] 0 (b ∷ bs) row (full_rows_done (length (b ∷ bs)) 0 (b ∷ bs) few) e
            (ground arith),
        read_dump_end row one_line ∙ read,
      )
  | inl many ↦
      let rest = drop 16 (b ∷ bs) in
      let shorter : length rest + 16 ≡ length (b ∷ bs) = ground (arith, length-drop 16 (b ∷ bs)) in
      let rows = full_rows (length bs) 16 rest in
      let (row, s, e, begins, read, left, on) =
        full_rows-Dumped (length bs) 16 rest (drop-AreBytes 16 (b ∷ bs) h) (ground arith)
          (ground arith) refl in
      let further : ltb 0 rows.1 ≡ true = ground arith in
      (
        full_row 0 (b ∷ bs) ++ b'\n' ∷ s,
        hexdump_rows b bs (full_row 0 (b ∷ bs) ++ rows.0) rows.1 rows.2 row
              (full_rows_more (length bs) 0 (b ∷ bs) many) e left
            ∙ rw further (ap some (rows_joined (full_row 0 (b ∷ bs)) rows.0 row s begins)),
        full_row-read_dump 0 (b ∷ bs) s h read,
      )
]
