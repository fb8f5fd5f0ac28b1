-- ===== src/Portfolio/Service.antt =====
-- internal/portfolio/service.go: Service.Get and Service.Ready over the two ports. What a call of a
-- port does outside is a change of a world W of any type.
pub mod Holdings
pub mod Totals
pub mod Success
pub mod Failures
pub mod Times
pub mod Aggregation
use factory_demo.Base.{
  List, [], ◌∷◌, ◌++◌, none, some, Result, ok, err, ◌>>=◌, map_err, if◌then◌else◌,
}
use factory_demo.Base.Int.{pos, ltb_ℤ}
use factory_demo.Text.{Text, is_empty}
use factory_demo.Failure.{Failure, within, detailed, Sentinel, Context, Detail}
use factory_demo.Dict.{Dict, lookup}
use factory_demo.Domain.Money.{Money, add}
use factory_demo.Domain.Quantity.{market_value}
use factory_demo.Domain.Values.{
  Time, zero_time, after, Position, Account, Price, Holding, AccountPortfolio, Portfolio,
}
use factory_demo.Portfolio.Symbols.{unique_symbols}

-- AccountSource and PriceSource.
pub record Ports (W : Type 0) : Type 0 where
  pub accounts : Text → W → Result Failure (List Account) × W
  pub accounts_healthy : W → Result Failure (Unit {0}) × W
  pub prices : List Text → W → Result Failure (Dict Price) × W
  pub prices_healthy : W → Result Failure (Unit {0}) × W

-- The variables of the loop over the positions of an account.
pub record Progress : Type 0 where
  pub account_value : Money
  pub as_of : Time
  pub holdings : List Holding

-- One round of the inner loop.
unfoldable pub value_position : Dict Price → Text → Position → Progress → Result Failure Progress
value_position prices id p s = elim (lookup p.symbol prices) [
  | none ↦ err (detailed Sentinel.price_unavailable (Detail.about p.symbol))
  | some price ↦ do
    value ← map_err (within (Context.value_of p.symbol)) (market_value p.quantity price.value)
    sum ← map_err (within (Context.total_account id)) (add s.account_value value)
    ok (record {
      account_value = sum;
      as_of = if after price.as_of s.as_of then price.as_of else s.as_of;
      holdings =
          s.holdings
          ++ record {
            symbol = p.symbol;
            quantity = p.quantity;
            unit_price = price.value;
            market_value = value;
          }
            ∷ [];
    })
]

unfoldable pub value_positions :
    Dict Price → Text → List Position → Progress → Result Failure Progress
value_positions prices id [] s = ok s
value_positions prices id (p ∷ ps) s = do
  s' ← value_position prices id p s
  value_positions prices id ps s'

abbrev pub start_account : Account → Time → Progress
start_account a as_of = record { account_value = a.cash; as_of = as_of; holdings = [] }

abbrev pub finish_account : Account → Progress → AccountPortfolio
finish_account a s = record {
  id = a.id;
  type = a.type;
  cash = a.cash;
  market_value = s.account_value;
  holdings = s.holdings;
}

-- The new total: the first account's value, or the sum, where an empty currency marks the first.
unfoldable pub total_with : Money → Money → Result Failure Money
total_with total value =
    if is_empty total.currency
    then ok value
    else map_err (within Context.total_portfolio) (add total value)

-- One round of the outer loop.
unfoldable pub add_account : Dict Price → Account → Portfolio → Result Failure Portfolio
unfolding total_with
add_account prices a r = do
  s ← value_positions prices a.id a.positions (start_account a r.as_of)
  total ← total_with r.total_market_value s.account_value
  ok (record r {
    as_of = s.as_of;
    total_market_value = total;
    accounts = r.accounts ++ finish_account a s ∷ [];
  })

unfoldable pub add_accounts : Dict Price → List Account → Portfolio → Result Failure Portfolio
add_accounts prices [] r = ok r
add_accounts prices (a ∷ rest) r = do r' ← add_account prices a r; add_accounts prices rest r'

abbrev pub no_money : Money
no_money = record { minor = pos 0; currency = [] }

abbrev pub start_portfolio : Text → Portfolio
start_portfolio id = record {
  customer_id = id;
  as_of = zero_time;
  total_market_value = no_money;
  accounts = [];
}

module _ {W : Type 0} (ports : Ports W) where
  -- Service.Get. The first argument is the order in which the map of symbols is iterated.
  unfoldable pub get : (List Text → List Text) → Text → W → Result Failure Portfolio × W
  get order id w =
      let (loaded, w') = ports.accounts id w in
      elim loaded [
        | err e ↦ (err (within Context.load_accounts e), w')
        | ok accounts ↦
            let (priced, w'') = ports.prices (unique_symbols order accounts) w' in
            elim priced [
              | err e ↦ (err (within Context.load_prices e), w'')
              | ok prices ↦ (add_accounts prices accounts (start_portfolio id), w'')
            ]
      ]

  -- Service.Ready.
  unfoldable pub ready : W → Result Failure (Unit {0}) × W
  ready w =
      let (core, w') = ports.accounts_healthy w in
      elim core [
        | err e ↦ (err (within Context.accounts_dependency e), w')
        | ok _ ↦
            let (market, w'') = ports.prices_healthy w' in
            (map_err (within Context.prices_dependency) market, w'')
      ]
