-- ===== src/Text/Number.antt =====
-- `fmt.Sscanf(s, "%d", &n)` into an `int` of 64 bits, and `strconv.Itoa`.
use agent_task.Prelude.{
  ℕ, zero, suc, ◌+◌, ◌-◌, ◌*◌, ◌/◌, ◌%◌, ◌^◌, ◌≡◌, refl, Bool, ◌&&◌, Option, none, some, [], ◌∷◌,
  ◌==◌, leb, ltb, if◌then◌else◌,
}
use agent_task.Text.Compare.{Bytes, codes}
use agent_task.Text.Trim.{trim_left}

-- `negsuc n` is -(n + 1).
pub data ℤ : Type 0 where
  pos : ℕ → ℤ
  negsuc : ℕ → ℤ

-- The integer -n.
abbrev pub negate : ℕ → ℤ
negate zero = pos 0
negate (suc n) = negsuc n

unfoldable pub is_digit : ℕ → Bool
is_digit c = leb b'0' c && leb c b'9'

-- The value of the digits at the front; the text may go on behind them.
unfoldable pub digits_value : ℕ → Bytes → ℕ
unfolding is_digit
digits_value n [] = n
digits_value n (c ∷ s) =
    let rest = digits_value (n * 10 + (c - b'0')) s in if is_digit c then rest else n

-- At least one digit, and the value fits: at most 2 ^ 63 - 1, or 2 ^ 63 behind a minus sign.
unfoldable pub scan_unsigned : ℕ → Bytes → Option ℕ
unfolding is_digit digits_value
scan_unsigned limit [] = none
scan_unsigned limit (c ∷ s) =
    if is_digit c
    then (let n = digits_value 0 (c ∷ s) in if ltb limit n then none else some n)
    else none

unfoldable pub scan_signed : Bytes → Option ℤ
unfolding scan_unsigned
scan_signed [] = none
scan_signed (c ∷ s) =
    if c == b'-'
    then elim (scan_unsigned (2 ^ 63) s) [ none ↦ none | some n ↦ some (negate n) ]
    else let t = (if c == b'+' then s else c ∷ s) in
      elim (scan_unsigned (2 ^ 63 - 1) t) [ none ↦ none | some n ↦ some (pos n) ]

-- White space is skipped first, and what stands behind the digits is not looked at.
unfoldable pub parse_int : Bytes → Option ℤ
unfolding scan_signed trim_left
parse_int s = scan_signed (trim_left s)

-- Decimal digits, the last one first found; ten to the fuel is above the number.
unfoldable pub digits_onto : ℕ → ℕ → Bytes → Bytes
digits_onto zero n out = out
digits_onto (suc fuel) n out =
    let rest = digits_onto fuel (n / 10) ((b'0' + n % 10) ∷ out) in if n == 0 then out else rest

unfoldable pub format_nat : ℕ → Bytes
unfolding digits_onto
format_nat zero = codes "0"
format_nat (suc n) = digits_onto 20 (suc n) []

-- `strconv.Itoa`, of a number of 64 bits: at most twenty digits.
unfoldable pub format_int : ℤ → Bytes
unfolding format_nat
format_int (pos n) = format_nat n
format_int (negsuc n) = b'-' ∷ format_nat (suc n)

format_int_tests :
    (format_int (pos 0) ≡ codes "0")
    × (format_int (pos 1024) ≡ codes "1024")
    × (format_int (negsuc 9) ≡ codes "-10")
unfolding format_int
format_int_tests = (refl, refl, refl)

parse_int_tests :
    (parse_int (codes "17") ≡ some (pos 17))
    × (parse_int (codes " -3x") ≡ some (negsuc 2))
    × (parse_int (codes "x3") ≡ none)
    × (parse_int (codes "9223372036854775808") ≡ none)
unfolding parse_int
parse_int_tests = (refl, refl, refl, refl)
