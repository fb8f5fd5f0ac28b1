-- ===== src/Domain/Money.antt =====
-- internal/domain/money.go: amounts of money in minor units, which are int64 values.
pub mod Sums
pub mod Rendering
use factory_demo.Base.{ℕ, [], ◌∷◌, ◌++◌, Result, ok, err, if◌then◌else◌, length, ◌==◌}
use factory_demo.Base.Int.{ℤ, pos, add64, neg64, ltb_ℤ, quot, rem}
use factory_demo.Text.{Text, text_eq, trim_space, to_upper, format_int, format_padded}
use factory_demo.Failure.{Failure, fixed, detailed, Fixed, Sentinel, Detail}

pub record Money : Type 0 where
  pub minor : ℤ
  pub currency : Text

-- NewMoney. The length of the code is counted in bytes.
unfoldable pub new_money : (Text → Text) → ℤ → Text → Result Failure Money
new_money upper_runes minor currency =
    let code = to_upper upper_runes (trim_space currency) in
    if length code == 3
    then ok (record { minor = minor; currency = code })
    else err (fixed Fixed.currency_code)

-- Money.Add. The sum wraps around.
unfoldable pub add : Money → Money → Result Failure Money
add m other =
    if text_eq m.currency other.currency
    then ok (record { minor = add64 m.minor other.minor; currency = m.currency })
    else err (detailed Sentinel.currency_mismatch (Detail.currencies m.currency other.currency))

-- The text behind the sign.
unfoldable pub unsigned_amount : ℤ → Text
unfolding quot rem format_int format_padded
unsigned_amount minor = format_int (quot minor 100) ++ b'.' ∷ format_padded 2 (rem minor 100)

-- Money.Amount. The negation wraps around.
unfoldable pub amount : Money → Text
amount m =
    if ltb_ℤ m.minor (pos 0)
    then b'-' ∷ unsigned_amount (neg64 m.minor)
    else unsigned_amount m.minor
