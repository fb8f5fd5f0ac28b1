-- ===== src/Tests/MockExamples.antt =====
-- Examples for the theorems on the mock services.
use factory_demo.Base.{◌<◌, length, ok, err, none, if◌then◌else◌, [], ◌∷◌, ◌++◌, ◌≡◌, ◌⊎◌, arith}
use factory_demo.Text.{Text, codes, text_eq}
use factory_demo.Upstream.Http.{Client, Body, max_response_bytes}
use factory_demo.Upstream.Market.{prices_endpoint, prices_of}
use factory_demo.Mocks.Encoding.{written}
use factory_demo.Mocks.Client.Payloads.{received}
use factory_demo.Mocks.Prices.{prices_of-handle_prices}
use factory_demo.Mocks.Prices.Readings.{mock_quotes, listed}
use factory_demo.Upstream.Decoding.Prices.{decode_prices}
use factory_demo.Dict.{Dict, lookup}
use factory_demo.Failure.{Failure, Service, status}
use factory_demo.Domain.Values.{Price}
use factory_demo.Mocks.Market.{
  handle_prices, prices_query, quotes, handle_prices-prices_query, HasUnknown,
}
use factory_demo.Tests.Fixtures.{same_runes}

abbrev market : Client
market = record { base_url = codes "http://localhost:8082" }

abbrev asked_query : Text
asked_query = prices_query (codes "AAPL" ∷ codes "BND" ∷ [])

abbrev foreign_failure : Body → Failure
foreign_failure body = Failure.foreign (codes "invalid")

asked_fits : length (written (handle_prices asked_query)) < max_response_bytes
unfolding written quotes lookup text_eq
asked_fits =
    rw (handle_prices-prices_query (codes "AAPL") (codes "BND" ∷ []) (ground arith) (ground arith))
      (ground arith)

prices_of-handle_prices_example :
    (prices_endpoint same_runes market (codes "AAPL" ∷ codes "BND" ∷ [])
      ≡ codes "http://localhost:8082" ++ (codes "/v1/prices?" ++ asked_query))
    × (((d : Dict Price) × (prices_of same_runes
              (decode_prices foreign_failure)
              (received (handle_prices asked_query))
            ≡ ok d)
          × ((t : Text)
              → lookup t d ≡ (
                  if listed t (codes "AAPL" ∷ codes "BND" ∷ [])
                  then lookup t mock_quotes
                  else none)))
        ⊎ (HasUnknown (codes "AAPL" ∷ codes "BND" ∷ [])
            × (prices_of same_runes
                  (decode_prices foreign_failure)
                  (received (handle_prices asked_query))
                ≡ err (status Service.market 404))))
prices_of-handle_prices_example =
    prices_of-handle_prices same_runes foreign_failure market (codes "AAPL") (codes "BND" ∷ [])
      (ground arith) (ground arith) asked_fits
