-- ===== src/Json/Integers.antt =====
-- Integers as the encoder spells them.
use factory_demo.Base.{
  ℕ, zero, suc, ◌+◌, ◌/◌, ◌%◌, ◌^◌, ◌≤◌, ◌<◌, [], ◌∷◌, ◌≡◌, refl, ap, ◌∙◌, true, arith, All, some,
  ltb, leb, Bool-cases, inl, inr,
}
use mathlib.Core.Path.{subst}
use factory_demo.Base.Int.{ℤ, pos, negsuc, Fits64, max_int64}
use factory_demo.Text.{Text, digits, format_nat, format_int, parse_int, parse_digits}
use factory_demo.Text.Digits.{
  IsDigit, format_nat-IsDigit, format_nat-ne-nil, value-format_nat, parse_int-IsDigit,
  parse_digits_exact,
}
use factory_demo.Json.Scanner.{NumberState}
use factory_demo.Json.Numbers.{is_number, completes}

completes-digits : (s : Text) → All IsDigit s → completes NumberState.integer s ≡ true
completes-digits [] h = refl
completes-digits (c ∷ s) h = ground (arith, h.0, completes-digits s h.1)

-- The first digit of a positive number is not 0.
digits_first :
    (f n : ℕ) (out : Text)
    → 0 < n
    → n < f
    → (c : ℕ) × (s : Text) × (digits f n out ≡ c ∷ s) × (b'1' ≤ c)
unfolding digits
digits_first zero n out p h = absurd (omega arith)
digits_first (suc f) n out p h = elim (Bool-cases (ltb n 10)) [
  | inl small ↦ (b'0' + n, out, rw small refl, omega arith)
  | inr large ↦
      let (c, s, e, k) =
        digits_first f (n / 10) ((b'0' + n % 10) ∷ out) (ground (arith, large))
          (ground (arith, large)) in
      (c, s, rw large e, k)
]

format_nat_first : (n : ℕ) → (c : ℕ) × (s : Text) × (format_nat (suc n) ≡ c ∷ s) × (b'1' ≤ c)
unfolding format_nat
format_nat_first n = digits_first (suc (suc n)) (suc n) [] (omega arith) (omega arith)

completes-nonzero :
    (c : ℕ) (s : Text)
    → b'1' ≤ c
    → All IsDigit (c ∷ s)
    → (is_number (c ∷ s) ≡ true) × (completes NumberState.minus (c ∷ s) ≡ true)
completes-nonzero c s k h =
    (ground (arith, k, h.0, completes-digits s h.1), ground (arith, k, h.0, completes-digits s h.1))

-- Behind a minus sign or at the start, a decimal number is a number of JSON.
format_nat-spelled :
    (n : ℕ)
    → (is_number (format_nat n) ≡ true) × (completes NumberState.minus (format_nat n) ≡ true)
format_nat-spelled zero = unfold format_nat digits in (refl, refl)
format_nat-spelled (suc n) =
    let (c, s, e, k) = format_nat_first n in
    let spelled : All IsDigit (c ∷ s) = subst (All IsDigit) e (format_nat-IsDigit (suc n)) in
    rw e (completes-nonzero c s k spelled)

pub is_number-format_int : (z : ℤ) → is_number (format_int z) ≡ true
unfolding format_int
is_number-format_int (pos n) = (format_nat-spelled n).0
is_number-format_int (negsuc n) = (format_nat-spelled (suc n)).1

parse_int-negative :
    (t : Text) (n : ℕ)
    → parse_digits t ≡ some (suc n)
    → suc n ≤ 2 ^ 63
    → parse_int (b'-' ∷ t) ≡ some (negsuc n)
unfolding parse_int
parse_int-negative t n e h = ground (arith, e, h)

pub parse_int-format_int : (z : ℤ) → Fits64 z → parse_int (format_int z) ≡ some z
unfolding format_int
parse_int-format_int (pos n) h =
    let fits : leb n max_int64 ≡ true = ground (arith, h.0) in
    parse_int-IsDigit (format_nat n) (format_nat-ne-nil n) (format_nat-IsDigit n)
    ∙ rw (value-format_nat n) (rw fits refl)
parse_int-format_int (negsuc n) h =
    parse_int-negative (format_nat (suc n)) n
      (parse_digits_exact (format_nat (suc n)) (format_nat-ne-nil (suc n))
          (format_nat-IsDigit (suc n))
        ∙ ap some (value-format_nat (suc n)))
      h.1
