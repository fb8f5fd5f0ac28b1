-- ===== src/HttpApi/Mapping.antt =====
-- The response bodies of internal/httpapi/handler.go.
use factory_demo.Base.{List, map}
use factory_demo.Text.{Text}
use factory_demo.Domain.Money.{Money, amount}
use factory_demo.Domain.Quantity.{quantity_string}
use factory_demo.Domain.Values.{Time, Holding, AccountPortfolio, Portfolio}

pub record MoneyResponse : Type 0 where
  pub amount : Text
  pub currency : Text

pub record HoldingResponse : Type 0 where
  pub symbol : Text
  pub quantity : Text
  pub unit_price : MoneyResponse
  pub market_value : MoneyResponse

pub record AccountResponse : Type 0 where
  pub account_id : Text
  pub account_type : Text
  pub cash_balance : MoneyResponse
  pub market_value : MoneyResponse
  pub holdings : List HoldingResponse

pub record PortfolioResponse : Type 0 where
  pub customer_id : Text
  pub as_of : Time
  pub total_market_value : MoneyResponse
  pub accounts : List AccountResponse

-- mapMoney.
unfoldable pub map_money : Money → MoneyResponse
map_money value = record { amount = amount value; currency = value.currency }

-- A round of the inner loop of mapPortfolio.
unfoldable pub map_holding : Holding → HoldingResponse
unfolding map_money
map_holding h = record {
  symbol = h.symbol;
  quantity = quantity_string h.quantity;
  unit_price = map_money h.unit_price;
  market_value = map_money h.market_value;
}

-- A round of the outer loop.
unfoldable pub map_account : AccountPortfolio → AccountResponse
unfolding map_money map_holding
map_account a = record {
  account_id = a.id;
  account_type = a.type;
  cash_balance = map_money a.cash;
  market_value = map_money a.market_value;
  holdings = map map_holding a.holdings;
}

-- mapPortfolio.
unfoldable pub map_portfolio : Portfolio → PortfolioResponse
unfolding map_money map_account
map_portfolio value = record {
  customer_id = value.customer_id;
  as_of = value.as_of;
  total_market_value = map_money value.total_market_value;
  accounts = map map_account value.accounts;
}
