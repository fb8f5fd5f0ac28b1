-- ===== src/Text/Decimal.antt =====
-- strconv.ParseInt at base 10 and 64 bits, and the decimal verbs of fmt.
use factory_demo.Base.{
  ℕ, zero, suc, ◌+◌, ◌-◌, ◌*◌, ◌/◌, ◌%◌, ◌^◌, [], ◌∷◌, ◌++◌, Bool, ◌&&◌, Option, none, some, ltb,
  leb, ◌==◌, if◌then◌else◌, length, replicate, all,
}
use factory_demo.Base.Int.{ℤ, pos, negsuc, sub_ℕ, max_int64}
use factory_demo.Text.Bytes.{Text}

abbrev pub is_digit : ℕ → Bool
is_digit c = leb b'0' c && leb c b'9'

-- The number that digits spell behind the number n.
unfoldable pub value : ℕ → Text → ℕ
value n [] = n
value n (c ∷ s) = value (n * 10 + (c - b'0')) s

-- One or more digits, with no bound on their value.
unfoldable pub parse_digits : Text → Option ℕ
unfolding value
parse_digits [] = none
parse_digits (c ∷ s) = if all is_digit (c ∷ s) then some (value 0 (c ∷ s)) else none

abbrev in_range : ℕ → (ℕ → ℤ) → Option ℕ → Option ℤ
in_range most sign none = none
in_range most sign (some n) = if leb n most then some (sign n) else none

-- strconv.ParseInt(s, 10, 64); `none` is either of its errors, syntax and range.
unfoldable pub parse_int : Text → Option ℤ
unfolding parse_digits
parse_int [] = none
parse_int (c ∷ s) =
    if c == b'-'
    then in_range (2 ^ 63) (sub_ℕ 0) (parse_digits s)
    else if c == b'+'
    then in_range max_int64 pos (parse_digits s)
    else in_range max_int64 pos (parse_digits (c ∷ s))

-- The decimal digits of n in front of a text; more fuel than n is enough.
unfoldable pub digits : ℕ → ℕ → Text → Text
digits zero n out = out
digits (suc fuel) n out =
    let rest = digits fuel (n / 10) ((b'0' + n % 10) ∷ out) in
    if ltb n 10 then (b'0' + n) ∷ out else rest

unfoldable pub format_nat : ℕ → Text
unfolding digits
format_nat n = digits (suc n) n []

-- %d, and strconv.FormatInt at base 10.
unfoldable pub format_int : ℤ → Text
unfolding format_nat
format_int (pos n) = format_nat n
format_int (negsuc n) = b'-' ∷ format_nat (suc n)

-- Zeros in front of digits, up to a width.
unfoldable pub pad : ℕ → Text → Text
pad width s = replicate (width - length s) b'0' ++ s

-- %0wd: the sign counts in the width and stands before the zeros.
unfoldable pub format_padded : ℕ → ℤ → Text
unfolding format_nat pad
format_padded width (pos n) = pad width (format_nat n)
format_padded width (negsuc n) = b'-' ∷ pad (width - 1) (format_nat (suc n))
