-- ===== src/Domain/Quantity.antt =====
-- internal/domain/money.go: quantities in millionths of a unit, which are int64 values.
pub mod Spelling
pub mod RoundTrip
pub mod Valuation
pub mod Inversion
use factory_demo.Base.{
  ℕ, ◌-◌, [], ◌∷◌, ◌++◌, List, not, ◌||◌, none, some, Option, Result, ok, err, if◌then◌else◌,
  length, ltb, all, replicate,
}
use factory_demo.Base.Int.{ℤ, pos, add64, mul64, quot, rem, eqb_ℤ}
use factory_demo.Text.{
  Text, is_empty, is_digit, has_prefix, trim_space, split, parse_int, format_int, format_padded,
  trim_right,
}
use factory_demo.Failure.{Failure, sentinel, detailed, Sentinel, Detail}
use factory_demo.Domain.Money.{Money}

pub record Quantity : Type 0 where
  pub millionths : ℤ

abbrev pub invalid : Text → Result Failure Quantity
invalid value = err (detailed Sentinel.invalid_quantity (Detail.quoted value))

abbrev pub million : ℕ
million = 1_000_000

-- The end of ParseQuantity, behind the loop over the fraction: the fraction is filled up to six
-- places, and the millionths are computed in int64.
unfoldable pub combine : Text → ℤ → Text → Result Failure Quantity
combine value whole fraction =
    let filled = fraction ++ replicate (6 - length fraction) b'0' in
    elim (parse_int filled) [
      | none ↦
          if not (is_empty filled)
          then invalid value
          else ok (record { millionths = mul64 whole (pos million) })
      | some part ↦ ok (record { millionths = add64 (mul64 whole (pos million)) part })
    ]

-- The tests of the fraction.
unfoldable pub with_fraction : Text → Text → Option ℤ → Result Failure Quantity
unfolding combine
with_fraction value fraction none = invalid value
with_fraction value fraction (some whole) =
    if ltb 6 (length fraction)
    then err (detailed Sentinel.invalid_quantity Detail.precision)
    else if all is_digit fraction
    then combine value whole fraction
    else invalid value

-- The parts around the points. A split has at least one part.
unfoldable pub from_parts : Text → List Text → Result Failure Quantity
unfolding with_fraction
from_parts value [] = invalid value
from_parts value (whole ∷ []) =
    if is_empty whole then invalid value else with_fraction value [] (parse_int whole)
from_parts value (whole ∷ fraction ∷ []) =
    if is_empty whole then invalid value else with_fraction value fraction (parse_int whole)
from_parts value (_ ∷ _ ∷ _ ∷ _) = invalid value

-- ParseQuantity, on the trimmed value.
unfoldable pub parse_trimmed : Text → Result Failure Quantity
unfolding from_parts
parse_trimmed value =
    if is_empty value || has_prefix value b'-'
    then invalid value
    else from_parts value (split b'.' value)

unfoldable pub parse_quantity : Text → Result Failure Quantity
unfolding parse_trimmed
parse_quantity value = parse_trimmed (trim_space value)

-- Quantity.String.
unfoldable pub quantity_string : Quantity → Text
quantity_string q =
    let whole = quot q.millionths million in
    let fraction = rem q.millionths million in
    if eqb_ℤ fraction (pos 0)
    then format_int whole
    else format_int whole ++ b'.' ∷ trim_right b'0' (format_padded 6 fraction)

-- Quantity.MarketValue. The product wraps around before it is tested.
unfoldable pub market_value : Quantity → Money → Result Failure Money
market_value q price =
    let product = mul64 q.millionths price.minor in
    if eqb_ℤ (rem product million) (pos 0)
    then ok (record { minor = quot product million; currency = price.currency })
    else err (sentinel Sentinel.fractional_minor)
