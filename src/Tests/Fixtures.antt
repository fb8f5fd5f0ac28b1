-- ===== src/Tests/Fixtures.antt =====
-- The accounts and prices of cmd/core-mock and cmd/market-mock, ports that return them, and a
-- network that answers with constants.
use factory_demo.Base.{ℕ, ◌+◌, List, [], ◌∷◌, true, none, some, Result, ok, err}
use factory_demo.Base.Int.{ℤ, pos}
use factory_demo.Text.{Text, codes}
use factory_demo.Failure.{Failure, foreign}
use factory_demo.Dict.{Dict}
use factory_demo.Domain.Money.{Money}
use factory_demo.Domain.Quantity.{Quantity}
use factory_demo.Domain.Values.{Time, Account, Price, Portfolio}
use factory_demo.Upstream.Wire.{
  CoreV1Response, CoreV2Portfolio, CoreV2Response, MarketPricesResponse,
}
use factory_demo.Upstream.Http.{Body, Response, Network}
use factory_demo.Upstream.Core.{Json, key_client, key_portfolios}
use factory_demo.Portfolio.Service.{Ports}
use factory_demo.Deployment.{Platform}
use factory_demo.Observability.Metrics.{Float}

abbrev pub usd : ℤ → Money
usd minor = record { minor = minor; currency = codes "USD" }

abbrev pub quantity_of : ℕ → Quantity
quantity_of n = record { millionths = pos n }

abbrev pub noon : Time
noon = record { instant = pos 63_924_206_400_000_000_000; offset = pos 0 }

abbrev pub brokerage : Account
brokerage = record {
  id = codes "acct-brokerage-01";
  type = codes "BROKERAGE";
  cash = usd (pos 250_000);
  positions = record { symbol = codes "AAPL"; quantity = quantity_of 100_000_000 } ∷ [];
}

abbrev pub retirement : Account
retirement = record {
  id = codes "acct-retirement-01";
  type = codes "RETIREMENT";
  cash = usd (pos 260_000);
  positions = record { symbol = codes "BND"; quantity = quantity_of 200_000_000 } ∷ [];
}

abbrev pub demo_accounts : List Account
demo_accounts = brokerage ∷ retirement ∷ []

abbrev pub demo_prices : Dict Price
demo_prices =
    (codes "AAPL", record { symbol = codes "AAPL"; value = usd (pos 18_525); as_of = noon })
    ∷ (codes "BND", record { symbol = codes "BND"; value = usd (pos 5_375); as_of = noon })
    ∷ []

abbrev pub demo_portfolio : Portfolio
demo_portfolio = record {
  customer_id = codes "cust-1001";
  as_of = noon;
  total_market_value = usd (pos 3_437_500);
  accounts =
      record {
        id = codes "acct-brokerage-01";
        type = codes "BROKERAGE";
        cash = usd (pos 250_000);
        market_value = usd (pos 2_102_500);
        holdings =
            record {
              symbol = codes "AAPL";
              quantity = quantity_of 100_000_000;
              unit_price = usd (pos 18_525);
              market_value = usd (pos 1_852_500);
            }
            ∷ [];
      }
      ∷ record {
        id = codes "acct-retirement-01";
        type = codes "RETIREMENT";
        cash = usd (pos 260_000);
        market_value = usd (pos 1_335_000);
        holdings =
            record {
              symbol = codes "BND";
              quantity = quantity_of 200_000_000;
              unit_price = usd (pos 5_375);
              market_value = usd (pos 1_075_000);
            }
            ∷ [];
      }
      ∷ [];
}

-- Ports that return the demo data; the world is the number of calls.
abbrev pub demo_ports : Ports ℕ
demo_ports = record {
  accounts = λ id w. (ok demo_accounts, w + 1);
  accounts_healthy = λ w. (ok tt, w + 1);
  prices = λ symbols w. (ok demo_prices, w + 1);
  prices_healthy = λ w. (ok tt, w + 1);
}

-- Ports of which the first one always fails.
abbrev pub failing_ports : Ports ℕ
failing_ports = record {
  accounts = λ id w. (err (foreign (codes "refused")), w + 1);
  accounts_healthy = λ w. (err (foreign (codes "refused")), w + 1);
  prices = λ symbols w. (ok demo_prices, w + 1);
  prices_healthy = λ w. (ok tt, w + 1);
}

abbrev pub same_order : List Text → List Text
same_order ts = ts

-- Numbers of nanoseconds in place of seconds.
abbrev pub nanoseconds : Float
nanoseconds = record {
  Number = ℤ;
  zero = pos 0;
  add = λ a b. b;
  seconds = λ n. n;
  print = λ n. codes "0.5";
}

abbrev pub same_runes : Text → Text
same_runes t = t

-- v2Response of cmd/core-mock.
abbrev pub v2_portfolio : Text → Text → ℤ → Text → Text → CoreV2Portfolio
v2_portfolio id category minor ticker units = record {
  id = some id;
  category = some category;
  balances = some (record {
    cash = some (record { minor_units = some minor; currency_code = some (codes "USD") });
  });
  assets = some (record { ticker = some ticker; units = some units } ∷ []);
}

abbrev pub demo_v2 : CoreV2Response
demo_v2 = record {
  client = some (record { id = some (codes "cust-1001") });
  portfolios = some (
      v2_portfolio (codes "acct-brokerage-01") (codes "BROKERAGE") (pos 250_000) (codes "AAPL")
        (codes "100")
      ∷ v2_portfolio (codes "acct-retirement-01") (codes "RETIREMENT") (pos 260_000) (codes "BND")
          (codes "200")
      ∷ []);
}

abbrev pub empty_v1 : CoreV1Response
empty_v1 = record { customer_id = none; accounts = none }

abbrev pub v2_keys : List Text
v2_keys = key_client ∷ key_portfolios ∷ []

-- A decoder that takes every text for the v2 payload.
abbrev pub demo_json : Json
demo_json = record {
  top_keys = λ raw. some v2_keys;
  decode_v1 = λ raw. none;
  decode_v2 = λ raw. some (demo_v2, []);
  at_end = λ rest. true;
}

abbrev pub demo_body : Body
demo_body = record { bytes = codes "{}"; fault = none }

abbrev pub response_of : ℕ → Response
response_of status = record { status_code = status; body = demo_body }

abbrev pub demo_listing : MarketPricesResponse
demo_listing = record {
  prices =
      record {
        symbol = codes "AAPL";
        price = record { amount_minor = pos 18_525; currency = codes "USD" };
        as_of = noon;
      }
      ∷ record {
        symbol = codes "BND";
        price = record { amount_minor = pos 5_375; currency = codes "USD" };
        as_of = noon;
      }
      ∷ [];
}

abbrev pub decode_listing : Body → Result Failure MarketPricesResponse
decode_listing body = ok demo_listing

-- A network that answers every request with one status.
abbrev pub constant_network : ℕ → Network ℕ
constant_network status = record {
  refuses = λ endpoint. none;
  send = λ endpoint w. (ok (response_of status), w + 1);
}

abbrev pub demo_platform : ℕ → Platform ℕ
demo_platform status = record {
  upper_runes = same_runes;
  json = demo_json;
  decode_prices = decode_listing;
  network = constant_network status;
  getenv = λ name. [];
}
