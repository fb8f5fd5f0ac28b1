-- ===== src/Upstream/Market/Statuses.antt =====
-- The errors of MarketClient.Prices in internal/upstream/client.go, and the sentinels in them.
use factory_demo.Base.{
  List, [], ◌∷◌, ◌≡◌, refl, some, Option-cases, false, Result, arith, inl, inr, Result-cases,
}
use factory_demo.Text.{Text}
use factory_demo.Failure.{Failure, Sentinel, Context, Service, error_is, fails_with, as_url_error}
use factory_demo.Dict.{Dict, insert}
use factory_demo.Domain.Money.{new_money}
use factory_demo.Domain.Values.{Price}
use factory_demo.Upstream.Wire.{MarketPrice, MarketPricesResponse}
use factory_demo.Upstream.Http.{
  Body, Response, Network, Client, new_transport_error, fetch, limit_reader, max_response_bytes,
}
use factory_demo.Upstream.Market.{price_of, collect_prices, prices_of, prices, prices_endpoint}

pub as_url_error-error_is :
    (e c : Failure) (t : Sentinel) → as_url_error e ≡ some c → error_is c t ≡ error_is e t
unfolding as_url_error error_is
as_url_error-error_is (Failure.sentinel s) c t h = cc
as_url_error-error_is (Failure.fixed f) c t h = cc
as_url_error-error_is (Failure.status s n) c t h = cc
as_url_error-error_is (Failure.transport s e) c t h = as_url_error-error_is e c t h
as_url_error-error_is (Failure.within s e) c t h = as_url_error-error_is e c t h
as_url_error-error_is (Failure.detailed s d) c t h = cc
as_url_error-error_is (Failure.foreign m) c t h = cc
as_url_error-error_is (Failure.url_error u e) c t h = ground arith

-- The transport error is recognised as what the network's error is recognised as.
pub new_transport_error-error_is :
    (service : Service) (e : Failure) (t : Sentinel)
    → error_is (new_transport_error service e) t ≡ error_is e t
unfolding new_transport_error error_is
new_transport_error-error_is service e t = elim (Option-cases (as_url_error e)) [
  | inl h ↦ ground arith
  | inr (c, h) ↦ ground (arith, as_url_error-error_is e c t h)
]

-- The errors of the network and of a decoder are not the sentinel.
pub record IsForeign {W : Type 0} (net : Network W) (t : Sentinel) : Type 0 where
  pub refusals :
      (endpoint : Text) (e : Failure) → net.refuses endpoint ≡ some e → error_is e t ≡ false
  pub failures : (endpoint : Text) (w : W) → fails_with (net.send endpoint w).0 t ≡ false

fetch-fails_with :
    {W : Type 0} (net : Network W) (t : Sentinel) (create : Context) (service : Service)
    (endpoint : Text) (w : W)
    → IsForeign net t
    → fails_with (fetch net create service endpoint w).0 t ≡ false
unfolding fetch error_is
fetch-fails_with net t create service endpoint w h = elim (Option-cases (net.refuses endpoint)) [
  | inr (e, refused) ↦ ground (arith, h.refusals endpoint e refused)
  | inl sent ↦ elim (Result-cases (net.send endpoint w).0) [
    | inl (r, e) ↦ ground arith
    | inr (f, e) ↦ ground (arith, new_transport_error-error_is service f t, h.failures endpoint w)
  ]
]

module _ (upper_runes : Text → Text) where
  price_of-fails_with :
      (item : MarketPrice)
      → fails_with (price_of upper_runes item) Sentinel.customer_not_found ≡ false
  unfolding price_of new_money error_is
  price_of-fails_with item = ground arith

  collect_prices-fails_with :
      (items : List MarketPrice) (m : Dict Price)
      → fails_with (collect_prices upper_runes items m) Sentinel.customer_not_found ≡ false
  unfolding collect_prices
  collect_prices-fails_with [] m = refl
  collect_prices-fails_with (item ∷ items) m = elim (Result-cases (price_of upper_runes item)) [
    | inl (p, e) ↦ ground (arith, collect_prices-fails_with items (insert item.symbol p m))
    | inr (f, e) ↦ ground (arith, price_of-fails_with item)
  ]

  prices_of-fails_with :
      (decode : Body → Result Failure MarketPricesResponse) (response : Response)
      → ((body : Body) → fails_with (decode body) Sentinel.customer_not_found ≡ false)
      → fails_with (prices_of upper_runes decode response) Sentinel.customer_not_found ≡ false
  unfolding prices_of error_is
  prices_of-fails_with decode response h =
      elim (Result-cases (decode (limit_reader max_response_bytes response.body))) [
        | inl (payload, e) ↦ ground (arith, collect_prices-fails_with payload.prices [])
        | inr (f, e) ↦ ground (arith, h (limit_reader max_response_bytes response.body))
      ]

  pub prices-fails_with :
      {W : Type 0} (net : Network W) (client : Client)
      (decode : Body → Result Failure MarketPricesResponse) (symbols : List Text) (w : W)
      → IsForeign net Sentinel.customer_not_found
      → ((body : Body) → fails_with (decode body) Sentinel.customer_not_found ≡ false)
      → fails_with (prices upper_runes net client decode symbols w).0 Sentinel.customer_not_found
        ≡ false
  unfolding prices
  prices-fails_with net client decode [] w f h = refl
  prices-fails_with net client decode (s ∷ symbols) w f h =
      let request = prices_endpoint upper_runes client (s ∷ symbols) in
      elim (Result-cases (fetch net Context.create_market_request Service.market request w).0) [
        | inl (response, e) ↦ ground (arith, prices_of-fails_with decode response h)
        | inr (e, failed) ↦ ground (
          arith,
          fetch-fails_with net Sentinel.customer_not_found Context.create_market_request
              Service.market request w f,
        )
      ]
