-- ===== src/Upstream/Items.antt =====
-- The checks of amounts and positions in internal/upstream/client.go.
pub mod Positions
pub mod Units
use factory_demo.Base.{
  ℕ, ◌-◌, [], ◌∷◌, ◌++◌, Bool, true, false, not, ◌&&◌, ◌||◌, Option, none, some, Result, ok, err,
  map_err, leb, ltb, length, all, replicate, if◌then◌else◌,
}
use factory_demo.Base.Int.{ℤ, pos, ltb_ℤ, quot, wrap64, ◌-ℤ◌, max_int64}
use factory_demo.Text.{
  Text, text_eq, is_empty, trim_space, has_prefix, has_suffix, before, behind, parse_int,
}
use factory_demo.Failure.{Failure, fixed, within, sentinel, Fixed, Sentinel, Context}
use factory_demo.Domain.Money.{Money, new_money}
use factory_demo.Domain.Quantity.{Quantity, million, parse_quantity}
use factory_demo.Domain.Values.{Position}

abbrev pub is_upper : ℕ → Bool
is_upper c = leb b'A' c && leb c b'Z'

-- coreCurrencyPattern, ^[A-Z]{3}$.
unfoldable pub is_core_currency : Text → Bool
is_core_currency (a ∷ b ∷ c ∷ []) = is_upper a && is_upper b && is_upper c
is_core_currency _ = false

-- errCoreInvalidQty.
abbrev pub core_invalid_quantity : Failure
core_invalid_quantity = within Context.core_quantity (sentinel Sentinel.invalid_quantity)

-- coreParseMoney.
unfoldable pub core_parse_money :
    (Text → Text) → Option ℤ → Option Text → Bool → Result Failure Money
core_parse_money upper_runes none currency strict = err (fixed Fixed.cash_invalid)
core_parse_money upper_runes (some minor) none strict = err (fixed Fixed.cash_invalid)
core_parse_money upper_runes (some minor) (some currency) strict =
    if strict && not (is_core_currency currency)
    then err (fixed Fixed.currency_invalid)
    else map_err (within Context.parse_core_cash) (new_money upper_runes minor currency)

-- The comparison at the end of coreV2QuantityOverflows, in int64.
unfoldable pub exceeds : ℤ → Option ℤ → Bool
exceeds whole none = false
exceeds whole (some fractional) = ltb_ℤ (quot (wrap64 (pos max_int64 -ℤ fractional)) million) whole

unfoldable pub whole_overflows : Text → Option ℤ → Bool
unfolding exceeds
whole_overflows fraction none = false
whole_overflows fraction (some whole) =
    if ltb_ℤ whole (pos 0) || ltb 6 (length fraction)
    then false
    else exceeds whole (parse_int (fraction ++ replicate (6 - length fraction) b'0'))

-- coreV2QuantityOverflows.
unfoldable pub core_v2_quantity_overflows : Text → Bool
unfolding whole_overflows
core_v2_quantity_overflows raw = whole_overflows (behind b'.' raw) (parse_int (before b'.' raw))

-- validCoreV2Quantity.
unfoldable pub valid_core_v2_quantity : Text → Bool
valid_core_v2_quantity raw =
    if not (text_eq raw (trim_space raw)) || has_prefix raw b'+' || has_suffix raw b'.'
    then false
    else not (core_v2_quantity_overflows raw)

-- coreParsePosition.
unfoldable pub core_parse_position : Option Text → Option Text → Bool → Result Failure Position
core_parse_position none quantity strict = err (fixed Fixed.position_invalid)
core_parse_position (some symbol) none strict = err (fixed Fixed.position_invalid)
core_parse_position (some symbol) (some quantity) strict =
    if is_empty symbol
    then err (fixed Fixed.position_invalid)
    else if strict && not (valid_core_v2_quantity quantity)
    then err core_invalid_quantity
    else elim (parse_quantity quantity) [
      | ok value ↦ ok (record { symbol = symbol; quantity = value })
      | err _ ↦ err core_invalid_quantity
    ]
