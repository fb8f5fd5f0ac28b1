-- ===== src/Tests/DomainExamples.antt =====
-- Examples for the theorems on money and quantities.
use factory_demo.Base.{err, leb, if◌then◌else◌, ◌*◌, ◌≡◌, ◌≢◌, ◌↔◌, inr, refl, ok, arith}
use factory_demo.Base.Int.{max_int64, rem, quot, pos, negsuc, wrap64, ◌+ℤ◌, ◌*ℤ◌}
use factory_demo.Text.{value, text_eq, codes}
use factory_demo.Domain.Money.{add, amount}
use factory_demo.Domain.Money.Rendering.{IsAmount, min_int64, amount-IsAmount_iff}
use factory_demo.Domain.Quantity.{parse_quantity, quantity_string, market_value, million}
use factory_demo.Failure.{Sentinel, Detail, detailed}
use factory_demo.Domain.Quantity.Spelling.{Spells, parse_quantity-Spells}
use factory_demo.Domain.Quantity.RoundTrip.{parse_quantity-quantity_string}
use factory_demo.Domain.Quantity.Valuation.{market_value_exact_iff, market_value_whole_units}
use factory_demo.Tests.Fixtures.{usd, quantity_of}

parse_quantity-quantity_string_example :
    parse_quantity (quantity_string (quantity_of 1_500_000)) ≡ ok (quantity_of 1_500_000)
parse_quantity-quantity_string_example = parse_quantity-quantity_string 1_500_000 (omega arith)

-- "10.5" spells 10500000 millionths.
spells_10_5 : Spells (codes "10.5") 10_500_000
unfolding value
spells_10_5 = record {
  whole = codes "10";
  fraction = codes "5";
  whole-ne-nil = λ e. cc;
  whole-IsDigit = omega arith;
  fraction-IsDigit = omega arith;
  short = omega arith;
  shape = inr (refl, λ e. cc);
  exact = refl;
}

parse_quantity-Spells_example : parse_quantity (codes "10.5") ≡ (
    if leb 10 max_int64
    then ok (record { millionths = wrap64 (pos 10_500_000) })
    else err (detailed Sentinel.invalid_quantity (Detail.quoted (codes "10.5"))))
unfolding value spells_10_5
parse_quantity-Spells_example = parse_quantity-Spells (codes "10.5") 10_500_000 spells_10_5

market_value_exact_iff_example :
    (market_value (quantity_of 10_500_000) (usd (pos 200)) ≡ ok (usd (pos 2_100)))
    ↔ ((codes "USD" ≡ codes "USD") × (pos 2_100 *ℤ pos million ≡ pos 10_500_000 *ℤ pos 200))
unfolding ◌*ℤ◌
market_value_exact_iff_example =
    market_value_exact_iff (quantity_of 10_500_000) (usd (pos 200)) (usd (pos 2_100)) (omega arith)

demo_value :
    market_value (quantity_of (100 * million)) (usd (pos 18_525)) ≡ ok (usd (pos 1_852_500))
unfolding market_value rem wrap64 ◌*ℤ◌ quot
demo_value = refl

market_value_whole_units_example : pos 1_852_500 ≡ pos (100 * 18_525)
market_value_whole_units_example =
    market_value_whole_units 100 18_525 (codes "USD") (usd (pos 1_852_500)) (omega arith) demo_value

amount-IsAmount_iff_example :
    IsAmount (amount (usd (negsuc 1_249))) (negsuc 1_249) ↔ (negsuc 1_249 ≢ min_int64)
amount-IsAmount_iff_example = amount-IsAmount_iff (usd (negsuc 1_249)) (omega arith)

three : add (usd (pos 1)) (usd (pos 2)) ≡ ok (usd (pos 3))
unfolding add text_eq wrap64 ◌+ℤ◌
three = refl
