-- ===== src/Deployment/Demo.antt =====
-- The API of cmd/portfolio-api between the mock services of cmd/core-mock and cmd/market-mock.
pub mod Calls
use mathlib.Core.Path.{subst, ap₂}
use factory_demo.Base.{
  ℕ, ◌*◌, ◌<◌, List, [], ◌∷◌, ◌++◌, ◌≡◌, ◌≢◌, ◌⊎◌, inl, inr, refl, sym, ap, ◌∙◌, true, false, none,
  some, Result, ok, err, arith, All, All-append, Bool-cases, ◌>>=◌,
}
use factory_demo.Base.Int.{pos, rem, wrap64, ◌*ℤ◌, ◌+ℤ◌, quot}
use factory_demo.Text.{
  Text, codes, text_eq, is_empty, join, trim_right, text_lt, before, behind, to_upper, trim_space,
}
use factory_demo.Text.Order.{text_eq_iff}
use factory_demo.Text.Cut.{Lacks}
use factory_demo.Text.Digits.{IsDigit}
use factory_demo.Text.Sorting.{IsIteration, count, sort}
use factory_demo.Failure.{Failure, Sentinel, sentinel, within, Context, Service, error_is}
use factory_demo.Dict.{Dict, insert, lookup}
use factory_demo.Json.Structs.{read_int}
use factory_demo.Json.Times.{parse_rfc3339}
use factory_demo.Domain.Money.{Money, new_money, add}
use factory_demo.Domain.Quantity.{market_value}
use factory_demo.Domain.Values.{Account, Portfolio, Holding, Price}
use factory_demo.Portfolio.Symbols.{unique_symbols}
use factory_demo.Portfolio.Symbols.Laws.{unique_symbols_order}
use factory_demo.Portfolio.Service.{
  Ports, get, add_accounts, start_portfolio, add_account, value_positions, value_position,
}
use factory_demo.Observability.Metrics.{Float}
use factory_demo.Upstream.Http.{
  Body, path_escape, query_escape, limit_reader, fetch, new_client, Response, Network, Client,
}
use factory_demo.Upstream.Core.{accounts, accounts_of, accounts_endpoint}
use factory_demo.Upstream.Core.Endpoints.{IsSegmentByte, path_escape-IsSegmentByte}
use factory_demo.Upstream.Market.{
  collect_prices, price_of, prices, prices_of, prices_endpoint, new_market_client,
}
use factory_demo.Upstream.Wire.{MarketPricesResponse}
use factory_demo.Upstream.Decoding.{go_json}
use factory_demo.Upstream.Decoding.Prices.{decode_prices, set_market_prices}
use factory_demo.Routing.Escapes.{IsName}
use factory_demo.HttpApi.{Elapsed, Server}
use factory_demo.HttpApi.Identifier.{is_customer_id, IsCustomerId, is_customer_id_iff}
use factory_demo.HttpApi.Replies.{answer, answer_status, status_for}
use factory_demo.Mocks.Query.{Bytes}
use factory_demo.Mocks.Core.{parse_contract_version, handle_accounts}
use factory_demo.Mocks.Client.{accounts_of-handle_accounts}
use factory_demo.Mocks.Client.Payloads.{mock_accounts, received}
use factory_demo.Mocks.Market.{
  handle_prices, prices_query, handle_prices-prices_query, quotes, price_object, prices_answer,
}
use factory_demo.Mocks.Routes.{accounts_path, market_entries}
use factory_demo.Routing.{choose}
use factory_demo.Mocks.Network.{core_base, mock_network, send-accounts}
use factory_demo.Mocks.Prices.Readings.{mock_quotes, mock_time}
use factory_demo.Deployment.{
  Platform, upstream_ports, core_client, market_client, env_or_default, new_server,
}
use factory_demo.Deployment.Demo.Calls.{
  IsAddressable, customer-IsAddressable, IsCustomerId-IsAddressable, demo_platform, accounts-mock,
  symbols-mock, prices-mock,
}

module _ {W : Type 0} (ports : Ports W) (order : List Text → List Text) (id : Text) (w : W) where
  get-answered :
      (accounts : List Account) (prices : Dict Price)
      → ports.accounts id w ≡ (ok accounts, w)
      → ports.prices (unique_symbols order accounts) w ≡ (ok prices, w)
      → get ports order id w ≡ (add_accounts prices accounts (start_portfolio id), w)
  unfolding get
  get-answered accounts prices loaded priced = ground (arith, loaded, priced)

  get-refused :
      (e : Failure)
      → ports.accounts id w ≡ (err e, w)
      → get ports order id w ≡ (err (within Context.load_accounts e), w)
  unfolding get
  get-refused e loaded = ground (arith, loaded)

abbrev usd : ℕ → Money
usd minor = record { minor = pos minor; currency = codes "USD" }

abbrev mock_holding : Text → ℕ → ℕ → ℕ → Holding
mock_holding symbol units price value = record {
  symbol = symbol;
  quantity = record { millionths = pos (units * 1_000_000) };
  unit_price = usd price;
  market_value = usd value;
}

-- The portfolio of the mock's customer: 34375.00 dollars.
abbrev pub mock_portfolio : Portfolio
mock_portfolio = record {
  customer_id = codes "cust-1001";
  as_of = mock_time;
  total_market_value = usd 3_437_500;
  accounts =
      record {
        id = codes "acct-brokerage-01";
        type = codes "BROKERAGE";
        cash = usd 250_000;
        market_value = usd 2_102_500;
        holdings = mock_holding (codes "AAPL") 100 18_525 1_852_500 ∷ [];
      }
      ∷ record {
        id = codes "acct-retirement-01";
        type = codes "RETIREMENT";
        cash = usd 260_000;
        market_value = usd 1_335_000;
        holdings = mock_holding (codes "BND") 200 5_375 1_075_000 ∷ [];
      }
      ∷ [];
}

valued :
    add_accounts mock_quotes mock_accounts (start_portfolio (codes "cust-1001")) ≡ ok mock_portfolio
unfolding add_accounts add_account value_positions value_position lookup add market_value text_eq
    rem wrap64 ◌*ℤ◌ ◌+ℤ◌ quot
valued = refl

module _ (upper_runes : Text → Text) (failure_of : Body → Failure) (version : Text) where
  abbrev pub demo_ports : Ports (Unit {0})
  demo_ports = upstream_ports (demo_platform upper_runes failure_of version)

  module _ (order : List Text → List Text) (quote : Text → Text) (value : Text) where
    -- The Core client reads the mock's accounts from the mock's answer.
    abbrev Received : Text → Type 0
    Received id =
        accounts_of go_json upper_runes id (received (handle_accounts version id))
        ≡ ok mock_accounts

    known_customer :
        IsIteration order
        → Received (codes "cust-1001")
        → get demo_ports order (codes "cust-1001") tt ≡ (ok mock_portfolio, tt)
    known_customer h read =
        get-answered demo_ports order (codes "cust-1001") tt mock_accounts mock_quotes
          (accounts-mock upper_runes failure_of version (codes "cust-1001")
              (customer-IsAddressable (codes "1001") (ground arith))
            ∙ ap (λ r. (r, tt)) read)
          (ap (λ ss. demo_ports.prices ss tt) (symbols-mock order h)
            ∙ prices-mock upper_runes failure_of version)
        ∙ ap (λ r. (r, tt)) valued

    unknown_customer :
        (id : Text)
        → IsAddressable id
        → accounts_of go_json upper_runes id (received (handle_accounts version id))
          ≡ err (sentinel Sentinel.customer_not_found)
        → get demo_ports order id tt
          ≡ (err (within Context.load_accounts (sentinel Sentinel.customer_not_found)), tt)
    unknown_customer id a read =
        get-refused demo_ports order id tt (sentinel Sentinel.customer_not_found)
          (accounts-mock upper_runes failure_of version id a ∙ ap (λ r. (r, tt)) read)

    -- Between the mock services, under each contract version that the Core mock accepts and in
    -- whatever order maps are iterated, the API answers a request for its one customer with 200, and
    -- the service returns the portfolio of 34375.00 dollars; it answers any other customer's
    -- identifier with 404, and other texts with 400.
    pub answer-mocks :
        {float : Float} (id : Text) (elapsed : Elapsed) (s : Server float (Unit {0}))
        → IsIteration order
        → parse_contract_version quote value ≡ ok version
        → ((id ≡ codes "cust-1001")
            × ((answer demo_ports order id elapsed s).status ≡ some 200)
            × ((get demo_ports order id tt).0 ≡ ok mock_portfolio))
          ⊎ ((IsCustomerId id
                × (id ≢ codes "cust-1001")
                × ((answer demo_ports order id elapsed s).status ≡ some 404))
              ⊎ ((¬ IsCustomerId id) × ((answer demo_ports order id elapsed s).status ≡ some 400)))
    unfolding error_is get
    answer-mocks id elapsed s h v =
        let sent = answer_status demo_ports order id elapsed s in
        let checked = is_customer_id_iff id in
        elim (Bool-cases (is_customer_id id)) [
          | inr refused ↦ inr (
              inr (
                λ c. cc (refused, checked.1 c),
                sent ∙ ap (λ b. some (status_for b (get demo_ports order id tt).0)) refused,
              ))
          | inl valid ↦ elim (accounts_of-handle_accounts upper_runes quote value version id v) [
            | inl (same, read) ↦
                let result : (get demo_ports order id tt).0 ≡ ok mock_portfolio =
                  ap (λ i. (get demo_ports order i tt).0) same
                  ∙ ap (λ r. r.0) (known_customer h (subst Received same read)) in
                inl (same, sent ∙ ap₂ (λ b r. some (status_for b r)) valid result, result)
            | inr (other, read) ↦
                let customer = checked.0 valid in
                let result = unknown_customer id (IsCustomerId-IsAddressable id customer) read in
                inr (
                  inl (
                    customer,
                    other,
                    sent ∙ ap₂ (λ b r. some (status_for b r)) valid (ap (λ r. r.0) result),
                  ))
          ]
        ]
