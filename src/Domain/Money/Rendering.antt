-- ===== src/Domain/Money/Rendering.antt =====
-- Money.Amount of internal/domain/money.go, and the shape of the texts it is meant to print.
use mathlib.Core.Path.{subst}
use factory_demo.Base.{
  ℕ, ◌+◌, ◌-◌, ◌*◌, ◌/◌, ◌%◌, ◌^◌, ◌≤◌, ◌<◌, [], ◌∷◌, ◌++◌, ◌≡◌, ◌≢◌, ◌↔◌, refl, sym, ◌∙◌, suc,
  arith, All, All-append, length, replicate, length-append, length-replicate,
}
use factory_demo.Base.Int.{ℤ, pos, negsuc, Fits64, neg64, wrap64, quot, max_int64, ◌-ℤ◌}
use factory_demo.Text.{Text, value, pad, format_nat, format_int}
use factory_demo.Text.Digits.{
  IsDigit, value-format_nat, format_nat-IsDigit, format_nat-ne-nil, length-format_nat, value-pad,
  replicate-IsDigit,
}
use factory_demo.Domain.Money.{Money, amount, unsigned_amount}

-- `text` is digits, a point and two digits, which spell n hundredths.
pub record IsHundredths (text : Text) (n : ℕ) : Type 0 where
  pub whole : Text
  pub cents : Text
  pub whole-ne-nil : whole ≢ []
  pub whole-IsDigit : All IsDigit whole
  pub cents-IsDigit : All IsDigit cents
  pub two_places : length cents ≡ 2
  pub shape : text ≡ whole ++ b'.' ∷ cents
  pub exact : n ≡ value 0 whole * 100 + value 0 cents

-- An amount, with a minus exactly where it is negative.
abbrev pub IsAmount : Text → ℤ → Type 0
IsAmount text (pos n) = IsHundredths text n
IsAmount text (negsuc n) = (t : Text) × (text ≡ b'-' ∷ t) × IsHundredths t (n + 1)

cents_of : ℕ → Text
cents_of r = pad 2 (format_nat r)

length-cents_of : (r : ℕ) → r < 100 → length (cents_of r) ≡ 2
unfolding cents_of pad
length-cents_of r h =
    let s = format_nat r in
    omega (
      arith,
      length-format_nat 2 r (omega arith) (omega arith),
      length-append (replicate (2 - length s) b'0') s,
      length-replicate {A = ℕ} (2 - length s) b'0',
    )

cents_of-IsDigit : (r : ℕ) → All IsDigit (cents_of r)
unfolding cents_of pad
cents_of-IsDigit r =
    All-append IsDigit (replicate (2 - length (format_nat r)) b'0') (format_nat r)
      (replicate-IsDigit (2 - length (format_nat r))) (format_nat-IsDigit r)

unsigned_amount_pos :
    (n : ℕ) → unsigned_amount (pos n) ≡ format_nat (n / 100) ++ b'.' ∷ cents_of (n % 100)
unfolding unsigned_amount cents_of
unsigned_amount_pos n = refl

unsigned_amount-IsHundredths : (n : ℕ) → IsHundredths (unsigned_amount (pos n)) n
unsigned_amount-IsHundredths n = record {
  whole = format_nat (n / 100);
  cents = cents_of (n % 100);
  whole-ne-nil = format_nat-ne-nil (n / 100);
  whole-IsDigit = format_nat-IsDigit (n / 100);
  cents-IsDigit = cents_of-IsDigit (n % 100);
  two_places = length-cents_of (n % 100) (omega arith);
  shape = unsigned_amount_pos n;
  exact =
      unfold cents_of in
      omega (
        arith,
        value-format_nat (n / 100),
        value-pad 2 (format_nat (n % 100)),
        value-format_nat (n % 100),
      );
}

-- The least int64, whose negation wraps around to itself.
abbrev pub min_int64 : ℤ
min_int64 = negsuc max_int64

amount_pos :
    (n : ℕ) (code : Text)
    → amount (record { minor = pos n; currency = code }) ≡ unsigned_amount (pos n)
unfolding amount
amount_pos n code = ground arith

neg64_negsuc : (n : ℕ) → n < max_int64 → neg64 (negsuc n) ≡ pos (n + 1)
unfolding wrap64 ◌-ℤ◌
neg64_negsuc n h = ground arith

amount_negsuc :
    (n : ℕ) (code : Text)
    → n < max_int64
    → amount (record { minor = negsuc n; currency = code }) ≡ b'-' ∷ unsigned_amount (pos (n + 1))
unfolding amount
amount_negsuc n code h = ground (arith, neg64_negsuc n h)

amount_min :
    (code : Text)
    → (t : Text) × (amount (record { minor = min_int64; currency = code }) ≡ b'-' ∷ b'-' ∷ t)
unfolding amount unsigned_amount wrap64 ◌-ℤ◌ quot format_int
amount_min code = (_, refl)

minus-ne-digits : (t w c : Text) → w ≢ [] → All IsDigit w → b'-' ∷ t ≢ w ++ b'.' ∷ c
minus-ne-digits t [] c h k = absurd (h refl)
minus-ne-digits t (d ∷ w) c h k = ground arith

minus-IsHundredths : (t : Text) (n : ℕ) → ¬ IsHundredths (b'-' ∷ t) n
minus-IsHundredths t n a = minus-ne-digits t a.whole a.cents a.whole-ne-nil a.whole-IsDigit a.shape

amount_min-IsAmount :
    (code : Text) → ¬ IsAmount (amount (record { minor = min_int64; currency = code })) min_int64
amount_min-IsAmount code (t, e, a) =
    let (u, f) = amount_min code in
    minus-IsHundredths u (max_int64 + 1)
      (subst (λ (s : Text). IsHundredths s (max_int64 + 1)) (tail_eq (sym e ∙ f)) a)
  where
    tail_eq : {c d : ℕ} {s u : Text} → c ∷ s ≡ d ∷ u → s ≡ u
    tail_eq h = cc

below-max : (n : ℕ) → suc n ≤ 2 ^ 63 → negsuc n ≢ min_int64 → n < max_int64
below-max n h k = ground arith

amount-IsAmount :
    (z : ℤ) (code : Text)
    → Fits64 z
    → z ≢ min_int64
    → IsAmount (amount (record { minor = z; currency = code })) z
amount-IsAmount (pos n) code h k = rw (amount_pos n code) (unsigned_amount-IsHundredths n)
amount-IsAmount (negsuc n) code h k = (
  unsigned_amount (pos (n + 1)),
  amount_negsuc n code (below-max n h.1 k),
  unsigned_amount-IsHundredths (n + 1),
)

-- Amount prints every int64 but the least one as a decimal with two places, which spells the minor
-- units and has a minus exactly where they are negative; the least one it does not.
pub amount-IsAmount_iff :
    (m : Money) → Fits64 m.minor → IsAmount (amount m) m.minor ↔ (m.minor ≢ min_int64)
amount-IsAmount_iff m h = (
  λ a e.
      amount_min-IsAmount m.currency
        (subst (λ (z : ℤ). IsAmount (amount (record { minor = z; currency = m.currency })) z) e a),
  λ k. amount-IsAmount m.minor m.currency h k,
)
