-- ===== src/Upstream/Market.antt =====
-- MarketClient of internal/upstream/client.go. The decoder of JSON is the parameter `decode`, which
-- Decoding.Prices has for encoding/json.
pub mod Listing
pub mod Statuses
use factory_demo.Base.{
  List, [], ◌∷◌, ◌++◌, ◌||◌, Result, ok, err, ◌>>=◌, map_err, ◌==◌, if◌then◌else◌,
}
use factory_demo.Text.{Text, codes, is_empty, join}
use factory_demo.Failure.{Failure, fixed, within, Fixed, Service, Context}
use factory_demo.Dict.{Dict, insert}
use factory_demo.Domain.Money.{new_money}
use factory_demo.Domain.Values.{Price, is_zero_time}
use factory_demo.Upstream.Wire.{MarketPrice, MarketPricesResponse}
use factory_demo.Upstream.Http.{
  Body, Response, Network, Client, new_client, query_escape, max_response_bytes, limit_reader,
  response_error, fetch, check_health,
}

-- NewMarketClient.
unfoldable pub new_market_client : Text → Client
unfolding new_client
new_market_client base_url = new_client base_url

module _ (upper_runes : Text → Text) where
  -- One round of the loop over the prices.
  unfoldable pub price_of : MarketPrice → Result Failure Price
  price_of item =
      if is_empty item.symbol || is_zero_time item.as_of
      then err (fixed Fixed.market_price_invalid)
      else map_err (within (Context.parse_price_for item.symbol))
          (new_money upper_runes item.price.amount_minor item.price.currency)
        >>= λ value. ok (record { symbol = item.symbol; value = value; as_of = item.as_of })

  -- The loop: a later price of a symbol replaces an earlier one.
  unfoldable pub collect_prices : List MarketPrice → Dict Price → Result Failure (Dict Price)
  collect_prices [] prices = ok prices
  collect_prices (item ∷ rest) prices =
      price_of item >>= λ price. collect_prices rest (insert item.symbol price prices)

  -- Prices, from the response on. What lies behind the limit is not seen by the decoder.
  unfoldable pub prices_of :
      (Body → Result Failure MarketPricesResponse) → Response → Result Failure (Dict Price)
  prices_of decode response =
      if response.status_code == 200
      then (map_err (within Context.decode_market_response)
            (decode (limit_reader max_response_bytes response.body))
          >>= λ payload. collect_prices payload.prices [])
      else err (response_error Service.market response)

  abbrev pub prices_endpoint : Client → List Text → Text
  prices_endpoint client symbols =
      client.base_url ++ (codes "/v1/prices?symbols=" ++ query_escape (join b',' symbols))

  module _ {W : Type 0} (net : Network W) (client : Client) where
    -- MarketClient.Prices. No symbol needs no request.
    unfoldable pub prices :
        (Body → Result Failure MarketPricesResponse)
        → List Text
        → W
        → Result Failure (Dict Price) × W
    prices decode [] w = (ok [], w)
    prices decode (s ∷ symbols) w =
        let (answer, w') =
          fetch net Context.create_market_request Service.market
            (prices_endpoint client (s ∷ symbols)) w in
        (answer >>= prices_of decode, w')

-- MarketClient.Healthy.
unfoldable pub healthy : {W : Type 0} → Network W → Client → W → Result Failure (Unit {0}) × W
healthy net client w =
    check_health net Context.create_market_health_request Service.market_health
      Service.market_health client.base_url w
