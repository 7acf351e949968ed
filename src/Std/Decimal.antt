-- ===== src/Std/Decimal.antt =====
-- `std::to_string` and `std::stoi` on the numbers that the program converts, which are not negative.
use lattice_flow.Base.{
  ℕ, zero, suc, ◌+◌, ◌-◌, ◌*◌, ◌/◌, ◌%◌, ◌<◌, ◌≤◌, ◌≡◌, refl, [], ◌∷◌, ◌++◌, Option, none, some,
  arith, ap, ltb, if◌then◌else◌,
}
use lattice_flow.Std.Lexicographic.{Bytes}

-- The digits of `n` in front of `tail`; the fuel is the number of digits allowed.
digits : ℕ → ℕ → Bytes → Bytes
digits zero n tail = tail
digits (suc f) n tail =
    let more = digits f (n / 10) ((48 + n % 10) ∷ tail) in
    if ltb n 10 then (48 + n) ∷ tail else more

unfoldable pub to_string : ℕ → Bytes
unfolding digits
to_string n = digits (suc n) n []

decimal : ℕ → Bytes → ℕ
decimal acc [] = acc
decimal acc (c ∷ cs) = decimal (acc * 10 + (c - 48)) cs

abbrev pub int_max : ℕ
int_max = 2147483647

-- `none` stands for the exception `std::out_of_range`.
unfoldable pub stoi : Bytes → Option ℕ
unfolding decimal
stoi cs = let n = decimal 0 cs in if ltb int_max n then none else some n

digit_split : (n : ℕ) → n / 10 * 10 + (48 + n % 10 - 48) ≡ n
digit_split n = omega arith

decimal-digits : (f n : ℕ) (tail : Bytes) → n < f → decimal 0 (digits f n tail) ≡ decimal n tail
unfolding digits decimal
decimal-digits zero n tail h = elim h [ ]
decimal-digits (suc f) n tail h = ground (
  arith,
  decimal-digits f (n / 10) ((48 + n % 10) ∷ tail),
  ap (λ (k : ℕ). decimal k tail) (digit_split n),
)

digits-append : (f n : ℕ) (tail rest : Bytes) → digits f n tail ++ rest ≡ digits f n (tail ++ rest)
unfolding digits
digits-append zero n tail rest = refl
digits-append (suc f) n tail rest =
    ground (arith, digits-append f (n / 10) ((48 + n % 10) ∷ tail) rest)

decimal-digit : (n d : ℕ) → d < 10 → decimal n (digits (suc d) d []) ≡ n * 10 + d
unfolding digits decimal
decimal-digit n d h = ground arith

-- To read back a number with one more digit behind it.
pub stoi-to_string_digit :
    (n d : ℕ)
    → d < 10
    → stoi (to_string n ++ to_string d)
      ≡ (if ltb int_max (n * 10 + d) then none else some (n * 10 + d))
unfolding stoi to_string
stoi-to_string_digit n d h =
    rw
      (
        digits-append (suc n) n [] (digits (suc d) d []),
        decimal-digits (suc n) n (digits (suc d) d []) (omega arith),
        decimal-digit n d h,
      )
      refl

-- A number that is an `int` is read back as it was written.
pub stoi-to_string : (n : ℕ) → n ≤ int_max → stoi (to_string n) ≡ some n
unfolding stoi to_string
stoi-to_string n h = rw (decimal-digits (suc n) n [] (omega arith), decimal) (ground arith)
