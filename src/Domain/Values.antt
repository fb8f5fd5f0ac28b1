-- ===== src/Domain/Values.antt =====
-- internal/domain/portfolio.go: positions, prices, holdings and portfolios; and time.Time.
use factory_demo.Base.{List, Bool}
use factory_demo.Base.Int.{ℤ, pos, ltb_ℤ, eqb_ℤ}
use factory_demo.Text.{Text}
use factory_demo.Domain.Money.{Money}
use factory_demo.Domain.Quantity.{Quantity}

-- time.Time: nanoseconds since the zero time, and the zone offset, which comparisons ignore.
pub record Time : Type 0 where
  pub instant : ℤ
  pub offset : ℤ

abbrev pub zero_time : Time
zero_time = record { instant = pos 0; offset = pos 0 }

-- t.After(u).
abbrev pub after : Time → Time → Bool
after t u = ltb_ℤ u.instant t.instant

abbrev pub is_zero_time : Time → Bool
is_zero_time t = eqb_ℤ t.instant (pos 0)

pub record Position : Type 0 where
  pub symbol : Text
  pub quantity : Quantity

pub record Account : Type 0 where
  pub id : Text
  pub type : Text
  pub cash : Money
  pub positions : List Position

pub record Price : Type 0 where
  pub symbol : Text
  pub value : Money
  pub as_of : Time

pub record Holding : Type 0 where
  pub symbol : Text
  pub quantity : Quantity
  pub unit_price : Money
  pub market_value : Money

pub record AccountPortfolio : Type 0 where
  pub id : Text
  pub type : Text
  pub cash : Money
  pub market_value : Money
  pub holdings : List Holding

pub record Portfolio : Type 0 where
  pub customer_id : Text
  pub as_of : Time
  pub total_market_value : Money
  pub accounts : List AccountPortfolio
