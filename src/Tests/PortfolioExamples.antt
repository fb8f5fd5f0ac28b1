-- ===== src/Tests/PortfolioExamples.antt =====
-- Examples for the theorems on the service.
use factory_demo.Base.{◌≡◌, ◌↔◌, refl, ok, All, arith, false, if◌then◌else◌}
use factory_demo.Base.Int.{rem, quot, wrap64, ◌*ℤ◌, ◌+ℤ◌}
use factory_demo.Text.{Text, codes, text_eq}
use factory_demo.Text.Sorting.{count}
use factory_demo.Text.Sorting.Laws.{IsStrictlySorted}
use factory_demo.Failure.{Sentinel, fails_with}
use factory_demo.Domain.Values.{Portfolio}
use factory_demo.Portfolio.Symbols.{unique_symbols}
use factory_demo.Portfolio.Symbols.Laws.{unique_symbols_lem, is_mentioned}
use factory_demo.Dict.{lookup}
use factory_demo.Domain.Money.{add}
use factory_demo.Domain.Quantity.{market_value}
use factory_demo.Portfolio.Service.{get, add_accounts, add_account, value_positions, value_position}
use factory_demo.Portfolio.Service.Failures.{get-fails_with_not_found}
use factory_demo.Portfolio.Service.Success.{CanValue}
use factory_demo.Portfolio.Service.Aggregation.{
  HasLoaded, IsPortfolio, get-IsPortfolio, get_succeeds_iff,
}
use factory_demo.Tests.Fixtures.{demo_accounts, demo_prices, demo_portfolio, demo_ports, same_order}

unique_symbols_lem_example :
    IsStrictlySorted (unique_symbols same_order demo_accounts)
    × ((s : Text)
        → count s (unique_symbols same_order demo_accounts)
          ≡ (if is_mentioned s demo_accounts then 1 else 0))
unique_symbols_lem_example = unique_symbols_lem same_order demo_accounts (λ ts s. refl)

demo_loaded : HasLoaded demo_ports same_order (codes "cust-1001") 0 demo_accounts demo_prices 2
demo_loaded = record {
  middle = 1;
  loaded = refl;
  priced = refl;
  cash = (
    record { fits = omega arith; coded = λ e. cc },
    (record { fits = omega arith; coded = λ e. cc }, tt),
  );
}

demo_get : (get demo_ports same_order (codes "cust-1001") 0).0 ≡ ok demo_portfolio
unfolding get add_accounts add_account value_positions value_position lookup add market_value
    text_eq rem wrap64 ◌*ℤ◌ ◌+ℤ◌ quot
demo_get = refl

get-IsPortfolio_example : IsPortfolio (codes "cust-1001") demo_prices demo_accounts demo_portfolio
get-IsPortfolio_example =
    get-IsPortfolio demo_ports same_order (codes "cust-1001") 0 demo_accounts demo_prices 2
      demo_portfolio demo_loaded demo_get

get_succeeds_iff_example :
    ((r : Portfolio) × ((get demo_ports same_order (codes "cust-1001") 0).0 ≡ ok r))
    ↔ ((code : Text) × All (CanValue demo_prices code) demo_accounts)
get_succeeds_iff_example =
    get_succeeds_iff demo_ports same_order (codes "cust-1001") 0 demo_accounts demo_prices 2
      demo_loaded

get-fails_with_not_found_example :
    fails_with (get demo_ports same_order (codes "cust-1001") 0).0 Sentinel.customer_not_found
    ≡ false
get-fails_with_not_found_example =
    get-fails_with_not_found demo_ports same_order (codes "cust-1001") 0 (λ symbols v. refl)
