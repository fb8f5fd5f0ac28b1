-- ===== src/Text/Digits.antt =====
-- Decimal digits, and the numbers that they spell.
use native.Mathlib.Nat.{pow-suc, pow-zero, mul-le-mul_right}
use factory_demo.Base.{
  ℕ, zero, suc, ◌+◌, ◌-◌, ◌*◌, ◌/◌, ◌%◌, ◌^◌, ◌≤◌, ◌<◌, [], ◌∷◌, ◌++◌, ◌≡◌, ◌≢◌, ◌∙◌, refl, true,
  arith, all, All, some, none, leb, if◌then◌else◌, length, replicate,
}
use factory_demo.Base.Int.{ℤ, pos, max_int64}
use factory_demo.Text.Bytes.{Text}
use factory_demo.Text.Decimal.{is_digit, value, parse_digits, digits, format_nat, pad, parse_int}

abbrev pub IsDigit : ℕ → Type 0
IsDigit c = (b'0' ≤ c) × (c ≤ b'9')

pub all-IsDigit : (s : Text) → All IsDigit s → all is_digit s ≡ true
all-IsDigit [] h = refl
all-IsDigit (c ∷ s) h = ground (arith, all-IsDigit s h.1)

pub IsDigit-all : (s : Text) → all is_digit s ≡ true → All IsDigit s
IsDigit-all [] h = tt
IsDigit-all (c ∷ s) h = ground (arith, IsDigit-all s)

pub value-append : (n : ℕ) (s t : Text) → value n (s ++ t) ≡ value (value n s) t
unfolding value
value-append n [] t = refl
value-append n (c ∷ s) t = value-append (n * 10 + (c - b'0')) s t

pub value-digits : (f n : ℕ) (out : Text) → n < f → value 0 (digits f n out) ≡ value n out
unfolding digits value
value-digits zero n out h = absurd (omega arith)
value-digits (suc f) n out h = ground (arith, value-digits f (n / 10) ((b'0' + n % 10) ∷ out))

digits-IsDigit : (f n : ℕ) (out : Text) → All IsDigit out → All IsDigit (digits f n out)
unfolding digits
digits-IsDigit zero n out h = h
digits-IsDigit (suc f) n out h = ground (arith, digits-IsDigit f (n / 10) ((b'0' + n % 10) ∷ out))

digits-ne-nil : (f n : ℕ) (out : Text) → out ≢ [] → digits f n out ≢ []
unfolding digits
digits-ne-nil zero n out h = h
digits-ne-nil (suc f) n out h = ground (arith, digits-ne-nil f (n / 10) ((b'0' + n % 10) ∷ out))

pub value-format_nat : (n : ℕ) → value 0 (format_nat n) ≡ n
unfolding format_nat value
value-format_nat n = value-digits (suc n) n [] (omega arith)

pub format_nat-IsDigit : (n : ℕ) → All IsDigit (format_nat n)
unfolding format_nat
format_nat-IsDigit n = digits-IsDigit (suc n) n [] tt

pub format_nat-ne-nil : (n : ℕ) → format_nat n ≢ []
unfolding format_nat digits
format_nat-ne-nil n = ground (arith, digits-ne-nil n (n / 10) ((b'0' + n % 10) ∷ []))

-- A number below 10 ^ k has at most k digits.
length-digits :
    (k f n : ℕ) (out : Text) → 0 < k → n < 10 ^ k → n < f → length (digits f n out) ≤ k + length out
unfolding digits
length-digits k zero n out p h q = absurd (omega arith)
length-digits zero (suc f) n out p h q = absurd (omega arith)
length-digits (suc zero) (suc f) n out p h q = ground arith
length-digits (suc (suc k)) (suc f) n out p h q =
    ground (arith, pow-suc 10 (suc k), length-digits (suc k) f (n / 10) ((b'0' + n % 10) ∷ out))

pub length-format_nat : (k n : ℕ) → 0 < k → n < 10 ^ k → length (format_nat n) ≤ k
unfolding format_nat
length-format_nat k n p h = omega (arith, length-digits k (suc n) n [] p h (omega arith))

pub parse_digits_exact : (s : Text) → s ≢ [] → All IsDigit s → parse_digits s ≡ some (value 0 s)
unfolding parse_digits
parse_digits_exact [] h k = absurd (h refl)
parse_digits_exact (c ∷ s) h k = ground (arith, all-IsDigit (c ∷ s) k)

value-replicate : (k : ℕ) (s : Text) → value 0 (replicate k b'0' ++ s) ≡ value 0 s
unfolding value
value-replicate zero s = refl
value-replicate (suc k) s = value-replicate k s

pub value-pad : (w : ℕ) (s : Text) → value 0 (pad w s) ≡ value 0 s
unfolding pad
value-pad w s = value-replicate (w - length s) s

pub value-zeros : (n k : ℕ) → value n (replicate k b'0') ≡ n * 10 ^ k
unfolding value
value-zeros n zero = rw pow-zero (omega arith)
value-zeros n (suc k) = value-zeros (n * 10 + 0) k ∙ rw pow-suc (omega arith)

-- On digits ParseInt is their value, if that fits.
pub parse_int-IsDigit :
    (s : Text)
    → s ≢ []
    → All IsDigit s
    → parse_int s ≡ (if leb (value 0 s) max_int64 then some (pos (value 0 s)) else none)
unfolding parse_int
parse_int-IsDigit [] h k = absurd (h refl)
parse_int-IsDigit (c ∷ s) h k = ground (arith, all-IsDigit (c ∷ s) k)

-- What ParseInt accepts without a sign is digits, and the result is their value.
pub parse_int_unsigned :
    (c : ℕ) (s : Text) {z : ℤ}
    → c ≢ b'-'
    → c ≢ b'+'
    → parse_int (c ∷ s) ≡ some z
    → All IsDigit (c ∷ s) × (z ≡ pos (value 0 (c ∷ s))) × (value 0 (c ∷ s) ≤ max_int64)
unfolding parse_int
parse_int_unsigned c s h k e = ground (arith, IsDigit-all (c ∷ s))

-- Digits behind n spell a number below the next multiple.
pub value-lt : (n : ℕ) (s : Text) → All IsDigit s → value n s < suc n * 10 ^ length s
unfolding value
value-lt n [] h = rw pow-zero (omega arith)
value-lt n (c ∷ s) h = rw pow-suc (
    grind (
      arith,
      value-lt (n * 10 + (c - b'0')) s h.1,
      mul-le-mul_right {m = suc (n * 10 + (c - b'0'))} {n = suc n * 10} (10 ^ length s)
          (omega arith),
    ))

pub replicate-IsDigit : (k : ℕ) → All IsDigit (replicate k b'0')
replicate-IsDigit zero = tt
replicate-IsDigit (suc k) = (omega arith, replicate-IsDigit k)

-- Digits with zeros behind them.
pub value-append_zeros : (s : Text) (k : ℕ) → value 0 (s ++ replicate k b'0') ≡ value 0 s * 10 ^ k
value-append_zeros s k = value-append 0 s (replicate k b'0') ∙ value-zeros (value 0 s) k
