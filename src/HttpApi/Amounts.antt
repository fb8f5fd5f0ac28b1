-- ===== src/HttpApi/Amounts.antt =====
-- What a client of the API reads in the body of a portfolio.
use factory_demo.Base.{List, [], ◌∷◌, ◌≡◌, ◌≢◌, refl, ok, map, ℕ, ◌≤◌, All}
use factory_demo.Base.Int.{pos, Fits64, max_int64}
use factory_demo.Domain.Money.{Money}
use factory_demo.Domain.Money.Rendering.{min_int64, IsAmount, amount-IsAmount_iff}
use factory_demo.Domain.Quantity.{parse_quantity}
use factory_demo.Domain.Quantity.RoundTrip.{parse_quantity-quantity_string}
use factory_demo.Domain.Values.{Holding, AccountPortfolio, Portfolio}
use factory_demo.HttpApi.Mapping.{
  MoneyResponse, HoldingResponse, AccountResponse, PortfolioResponse, map_money, map_holding,
  map_account, map_portfolio,
}

-- Money that the API can show: an int64 that is not the least one.
pub record IsPrintable (m : Money) : Type 0 where
  pub fits : Fits64 m.minor
  pub negatable : m.minor ≢ min_int64

pub record PrintableHolding (h : Holding) : Type 0 where
  pub natural : ℕ
  pub fits : natural ≤ max_int64
  pub quantity : h.quantity ≡ record { millionths = pos natural }
  pub price : IsPrintable h.unit_price
  pub value : IsPrintable h.market_value

pub record PrintableAccount (a : AccountPortfolio) : Type 0 where
  pub cash : IsPrintable a.cash
  pub value : IsPrintable a.market_value
  pub holdings : All PrintableHolding a.holdings

-- The response is the money, spelled with two places.
pub record ShowsMoney (r : MoneyResponse) (m : Money) : Type 0 where
  pub amount : IsAmount r.amount m.minor
  pub currency : r.currency ≡ m.currency

pub record ShowsHolding (r : HoldingResponse) (h : Holding) : Type 0 where
  pub symbol : r.symbol ≡ h.symbol
  pub quantity : parse_quantity r.quantity ≡ ok h.quantity
  pub price : ShowsMoney r.unit_price h.unit_price
  pub value : ShowsMoney r.market_value h.market_value

-- Two lists of one length whose items are related one by one.
abbrev pub Pairwise : {A B : Type 0} → (A → B → Type 0) → List A → List B → Type 0
Pairwise R [] [] = Unit
Pairwise R [] (_ ∷ _) = ⊥
Pairwise R (_ ∷ _) [] = ⊥
Pairwise R (a ∷ items) (b ∷ bs) = R a b × Pairwise R items bs

pub record ShowsAccount (r : AccountResponse) (a : AccountPortfolio) : Type 0 where
  pub id : r.account_id ≡ a.id
  pub type : r.account_type ≡ a.type
  pub cash : ShowsMoney r.cash_balance a.cash
  pub value : ShowsMoney r.market_value a.market_value
  pub holdings : Pairwise ShowsHolding r.holdings a.holdings

pub record ShowsPortfolio (r : PortfolioResponse) (p : Portfolio) : Type 0 where
  pub customer : r.customer_id ≡ p.customer_id
  pub time : r.as_of ≡ p.as_of
  pub total : ShowsMoney r.total_market_value p.total_market_value
  pub accounts : Pairwise ShowsAccount r.accounts p.accounts

map_money-ShowsMoney : (m : Money) → IsPrintable m → ShowsMoney (map_money m) m
unfolding map_money
map_money-ShowsMoney m p = record {
  amount = (amount-IsAmount_iff m p.fits).1 p.negatable;
  currency = refl;
}

map_holding-ShowsHolding : (h : Holding) → PrintableHolding h → ShowsHolding (map_holding h) h
unfolding map_holding
map_holding-ShowsHolding h p = record {
  symbol = refl;
  quantity = rw p.quantity (parse_quantity-quantity_string p.natural p.fits);
  price = map_money-ShowsMoney h.unit_price p.price;
  value = map_money-ShowsMoney h.market_value p.value;
}

map_holdings-Pairwise :
    (hs : List Holding) → All PrintableHolding hs → Pairwise ShowsHolding (map map_holding hs) hs
map_holdings-Pairwise [] p = tt
map_holdings-Pairwise (h ∷ hs) p = (map_holding-ShowsHolding h p.0, map_holdings-Pairwise hs p.1)

map_account-ShowsAccount :
    (a : AccountPortfolio) → PrintableAccount a → ShowsAccount (map_account a) a
unfolding map_account
map_account-ShowsAccount a p = record {
  id = refl;
  type = refl;
  cash = map_money-ShowsMoney a.cash p.cash;
  value = map_money-ShowsMoney a.market_value p.value;
  holdings = map_holdings-Pairwise a.holdings p.holdings;
}

map_accounts-Pairwise :
    (items : List AccountPortfolio)
    → All PrintableAccount items
    → Pairwise ShowsAccount (map map_account items) items
map_accounts-Pairwise [] p = tt
map_accounts-Pairwise (a ∷ items) p =
    (map_account-ShowsAccount a p.0, map_accounts-Pairwise items p.1)

-- The body of a portfolio whose amounts are int64 values other than the least one and whose
-- quantities are not negative shows it whole: every account and holding in order, each amount as a
-- decimal with two places that spells it, and each quantity as a text that parses to it.
pub map_portfolio-ShowsPortfolio :
    (p : Portfolio)
    → IsPrintable p.total_market_value
    → All PrintableAccount p.accounts
    → ShowsPortfolio (map_portfolio p) p
unfolding map_portfolio
map_portfolio-ShowsPortfolio p t h = record {
  customer = refl;
  time = refl;
  total = map_money-ShowsMoney p.total_market_value t;
  accounts = map_accounts-Pairwise p.accounts h;
}
