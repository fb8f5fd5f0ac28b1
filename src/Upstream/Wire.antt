-- ===== src/Upstream/Wire.antt =====
-- The wire types of internal/upstream/client.go. `none` is a nil pointer or a nil slice: a member that
-- is missing or null.
use factory_demo.Base.{List, Option}
use factory_demo.Base.Int.{ℤ}
use factory_demo.Text.{Text}
use factory_demo.Domain.Values.{Time}

pub record CoreV1Money : Type 0 where
  pub amount_minor : Option ℤ
  pub currency : Option Text

pub record CoreV1Position : Type 0 where
  pub symbol : Option Text
  pub quantity : Option Text

pub record CoreV1Account : Type 0 where
  pub account_id : Option Text
  pub account_type : Option Text
  pub cash_balance : Option CoreV1Money
  pub positions : Option (List CoreV1Position)

pub record CoreV1Response : Type 0 where
  pub customer_id : Option Text
  pub accounts : Option (List CoreV1Account)

pub record CoreV2Money : Type 0 where
  pub minor_units : Option ℤ
  pub currency_code : Option Text

pub record CoreV2Balances : Type 0 where
  pub cash : Option CoreV2Money

pub record CoreV2Asset : Type 0 where
  pub ticker : Option Text
  pub units : Option Text

pub record CoreV2Portfolio : Type 0 where
  pub id : Option Text
  pub category : Option Text
  pub balances : Option CoreV2Balances
  pub assets : Option (List CoreV2Asset)

pub record CoreV2Client : Type 0 where
  pub id : Option Text

pub record CoreV2Response : Type 0 where
  pub client : Option CoreV2Client
  pub portfolios : Option (List CoreV2Portfolio)

pub data CoreVersion : Type 0 where
  unknown v1 v2 : CoreVersion

-- coreMoney, the lenient shape of the Market API: a member that is missing is zero or empty.
pub record MarketMoney : Type 0 where
  pub amount_minor : ℤ
  pub currency : Text

pub record MarketPrice : Type 0 where
  pub symbol : Text
  pub price : MarketMoney
  pub as_of : Time

pub record MarketPricesResponse : Type 0 where
  pub prices : List MarketPrice
