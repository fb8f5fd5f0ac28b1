-- ===== src/Domain/Quantity/Valuation.antt =====
-- Quantity.MarketValue of internal/domain/money.go, with and without overflow.
use factory_demo.Base.{ℕ, ◌*◌, ◌≤◌, ◌≡◌, ◌↔◌, refl, ok, true, arith}
use factory_demo.Base.Int.{
  ℤ, pos, negsuc, Fits64, wrap64, wrap64_fits, ◌*ℤ◌, quot, rem, eqb_ℤ, mul64,
}
use factory_demo.Text.{Text}
use factory_demo.Domain.Money.{Money}
use factory_demo.Domain.Quantity.{Quantity, million, market_value}

rem-eq-zero : (z : ℤ) → eqb_ℤ (rem z million) (pos 0) ≡ true → z ≡ quot z million *ℤ pos million
unfolding quot rem ◌*ℤ◌
rem-eq-zero (pos n) h = ground arith
rem-eq-zero (negsuc n) h = ground arith

rem-times : (z : ℤ) → eqb_ℤ (rem (z *ℤ pos million) million) (pos 0) ≡ true
unfolding rem ◌*ℤ◌
rem-times (pos n) = ground arith
rem-times (negsuc n) = ground arith

quot-times : (z : ℤ) → quot (z *ℤ pos million) million ≡ z
unfolding quot ◌*ℤ◌
quot-times (pos n) = ground arith
quot-times (negsuc n) = ground arith

wrap64_product :
    (q : Quantity) (p : Money)
    → Fits64 (q.millionths *ℤ p.minor)
    → mul64 q.millionths p.minor ≡ q.millionths *ℤ p.minor
wrap64_product q p h = wrap64_fits (q.millionths *ℤ p.minor) h

-- As long as the product of millionths and price fits in an int64, the value is a success exactly
-- when it is that product divided by a million without a remainder, in the price's currency.
pub market_value_exact_iff :
    (q : Quantity) (p v : Money)
    → Fits64 (q.millionths *ℤ p.minor)
    → (market_value q p ≡ ok v)
      ↔ ((v.currency ≡ p.currency) × (v.minor *ℤ pos million ≡ q.millionths *ℤ p.minor))
unfolding market_value
market_value_exact_iff q p v h =
    let product = q.millionths *ℤ p.minor in
    (
      λ e. ground (arith, wrap64_fits product h, rem-eq-zero product),
      λ e. ground (arith, wrap64_fits product h, rem-times v.minor, quot-times v.minor),
    )

-- A product of a million that overflows and is still a multiple of a million lost a multiple of
-- 15625 rounds.
lost_rounds :
    (n : ℕ) (w : ℤ)
    → n ≤ 288_221_152_779_674_889
    → wrap64 (pos (n * million)) ≡ w
    → eqb_ℤ (rem w million) (pos 0) ≡ true
    → quot w million ≡ pos n
unfolding wrap64 rem quot
lost_rounds n (pos w) h e k = ground arith
lost_rounds n (negsuc w) h e k = ground arith

product_pos : (k p : ℕ) → pos (k * million) *ℤ pos p ≡ pos (k * p * million)
unfolding ◌*ℤ◌
product_pos k p = ground arith

-- The value of a whole number of units at a price that is not negative is exact or refused, also
-- where the product overflows, as long as the true value is at most 288221152779674889 minor units.
pub market_value_whole_units :
    (k p : ℕ) (code : Text) (v : Money)
    → k * p ≤ 288_221_152_779_674_889
    → market_value
        (record { millionths = pos (k * million) })
        (record { minor = pos p; currency = code })
      ≡ ok v
    → v.minor ≡ pos (k * p)
unfolding market_value
market_value_whole_units k p code v h e =
    ground (arith, product_pos k p, lost_rounds (k * p) (wrap64 (pos (k * p * million))) h refl)
