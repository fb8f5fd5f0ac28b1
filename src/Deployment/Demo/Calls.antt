-- ===== src/Deployment/Demo/Calls.antt =====
-- The calls that the API's clients make of the mock services.
use mathlib.Core.Path.{subst}
use factory_demo.Base.{
  ◌<◌, List, [], ◌∷◌, ◌++◌, ◌≡◌, ◌≢◌, refl, sym, ap, ◌∙◌, false, none, some, Result, ok, arith, All,
  All-append, ◌>>=◌,
}
use factory_demo.Base.Int.{pos}
use factory_demo.Text.{
  Text, codes, text_eq, join, trim_right, text_lt, before, behind, to_upper, trim_space,
}
use factory_demo.Text.Cut.{cut_prefix, Lacks}
use factory_demo.Text.Digits.{IsDigit}
use factory_demo.Text.Sorting.{IsIteration}
use factory_demo.Failure.{Failure, Context, Service}
use factory_demo.Dict.{insert, lookup}
use factory_demo.Json.Structs.{read_int}
use factory_demo.Json.Times.{parse_rfc3339}
use factory_demo.Domain.Money.{new_money}
use factory_demo.Portfolio.Symbols.{unique_symbols}
use factory_demo.Portfolio.Symbols.Laws.{unique_symbols_order}
use factory_demo.Upstream.Http.{
  Body, path_escape, query_escape, limit_reader, fetch, new_client, Response, Network, Client,
}
use factory_demo.Upstream.Core.{accounts, accounts_of, accounts_endpoint}
use factory_demo.Upstream.Core.Endpoints.{IsSegmentByte, path_escape-IsSegmentByte}
use factory_demo.Upstream.Market.{
  collect_prices, price_of, prices, prices_of, prices_endpoint, new_market_client,
}
use factory_demo.Upstream.Wire.{MarketPricesResponse}
use factory_demo.Upstream.Decoding.{go_json}
use factory_demo.Upstream.Decoding.Prices.{decode_prices, set_market_prices}
use factory_demo.Routing.Escapes.{IsName}
use factory_demo.HttpApi.Identifier.{IsCustomerId}
use factory_demo.Mocks.Query.{Bytes}
use factory_demo.Mocks.Core.{handle_accounts}
use factory_demo.Mocks.Client.Payloads.{mock_accounts, received}
use factory_demo.Mocks.Market.{
  handle_prices, prices_query, handle_prices-prices_query, quotes, price_object, prices_answer,
}
use factory_demo.Mocks.Routes.{accounts_path, market_entries}
use factory_demo.Routing.{choose}
use factory_demo.Mocks.Network.{core_base, mock_network, send-accounts}
use factory_demo.Mocks.Prices.Readings.{mock_quotes}
use factory_demo.Deployment.{Platform, upstream_ports, core_client, market_client, env_or_default}

-- What the address of a customer's accounts needs of an identifier.
pub record IsAddressable (id : Text) : Type 0 where
  bytes : Bytes id
  name : IsName id
  no_slash : text_eq id (codes "/") ≡ false
  no_query : Lacks b'?' (accounts_path id)

digits-Bytes : (s : Text) → All IsDigit s → Bytes s
digits-Bytes [] h = tt
digits-Bytes (c ∷ s) h = (omega (arith, h.0), digits-Bytes s h.1)

segment-Lacks : (s : Text) → All IsSegmentByte s → Lacks b'?' s
segment-Lacks [] h = tt
segment-Lacks (c ∷ s) h = (h.0.1, segment-Lacks s h.1)

accounts_path-Lacks : (id : Text) → Bytes id → Lacks b'?' (accounts_path id)
unfolding join
accounts_path-Lacks id h =
    All-append (λ c. c ≢ b'?') (codes "/v1/customers/") (path_escape id ++ codes "/accounts")
      (ground arith)
      (All-append (λ c. c ≢ b'?') (path_escape id) (codes "/accounts")
        (segment-Lacks (path_escape id) (path_escape-IsSegmentByte id h)) (ground arith))

pub customer-IsAddressable :
    (number : Text) → All IsDigit number → IsAddressable (codes "cust-" ++ number)
unfolding text_eq
customer-IsAddressable number h =
    let bytes : Bytes (codes "cust-" ++ number) =
      All-append (λ c. c < 256) (codes "cust-") number (ground arith) (digits-Bytes number h) in
    record {
      bytes = bytes;
      name = (refl, refl, refl);
      no_slash = refl;
      no_query = accounts_path-Lacks (codes "cust-" ++ number) bytes;
    }

pub IsCustomerId-IsAddressable : (id : Text) → IsCustomerId id → IsAddressable id
IsCustomerId-IsAddressable id c =
    subst IsAddressable (sym c.shape) (customer-IsAddressable c.number c.number-IsDigit)

pub symbols-mock :
    (order : List Text → List Text)
    → IsIteration order
    → unique_symbols order mock_accounts ≡ codes "AAPL" ∷ codes "BND" ∷ []
symbols-mock order h =
    unique_symbols_order order (λ ts. ts) mock_accounts h (λ ts s. refl)
    ∙ unfold unique_symbols text_eq text_lt in refl

-- The clients' calls where the network answers.
module _ {W : Type 0} (net : Network W) (client : Client) (upper_runes : Text → Text) where
  fetch-answered :
      (create : Context) (service : Service) (endpoint : Text) (w : W) (response : Response)
      → net.refuses endpoint ≡ none
      → net.send endpoint w ≡ (ok response, w)
      → fetch net create service endpoint w ≡ (ok response, w)
  unfolding fetch
  fetch-answered create service endpoint w response accepted sent = ground (arith, accepted, sent)

  accounts-answered :
      (id : Text) (w : W) (response : Response)
      → net.refuses (accounts_endpoint go_json client id) ≡ none
      → net.send (accounts_endpoint go_json client id) w ≡ (ok response, w)
      → accounts go_json net client upper_runes id w
        ≡ (accounts_of go_json upper_runes id response, w)
  unfolding accounts
  accounts-answered id w response accepted sent =
      ap (λ a. (a.0 >>= accounts_of go_json upper_runes id, a.1))
        (fetch-answered Context.create_core_request Service.core
          (accounts_endpoint go_json client id) w response accepted sent)

  prices-answered :
      (decode : Body → Result Failure MarketPricesResponse) (s : Text) (symbols : List Text) (w : W)
      (response : Response)
      → net.refuses (prices_endpoint upper_runes client (s ∷ symbols)) ≡ none
      → net.send (prices_endpoint upper_runes client (s ∷ symbols)) w ≡ (ok response, w)
      → prices upper_runes net client decode (s ∷ symbols) w
        ≡ (prices_of upper_runes decode response, w)
  unfolding prices
  prices-answered decode s symbols w response accepted sent =
      ap (λ a. (a.0 >>= prices_of upper_runes decode, a.1))
        (fetch-answered Context.create_market_request Service.market
          (prices_endpoint upper_runes client (s ∷ symbols)) w response accepted sent)

module _ (upper_runes : Text → Text) (failure_of : Body → Failure) (version : Text) where
  -- The API's platform: no variable is set, and the mock services are what it finds.
  abbrev pub demo_platform : Platform (Unit {0})
  demo_platform = record {
    upper_runes = upper_runes;
    json = go_json;
    decode_prices = decode_prices failure_of;
    network = mock_network version;
    getenv = λ name. [];
  }

  core_client_base : (core_client (λ name. [])).base_url ≡ core_base
  unfolding core_client env_or_default trim_right new_client
  core_client_base = refl

  pub accounts-mock :
      (id : Text)
      → IsAddressable id
      → (upstream_ports demo_platform).accounts id tt
        ≡ (accounts_of go_json upper_runes id (received (handle_accounts version id)), tt)
  unfolding upstream_ports
  accounts-mock id a =
      accounts-answered (mock_network version) (core_client (λ name. [])) upper_runes id tt
        (received (handle_accounts version id)) (unfold mock_network in refl)
        (send-accounts go_json (core_client (λ name. [])) version id core_client_base a.bytes a.name
          a.no_slash a.no_query)

  sent_prices :
      (mock_network version).send
        (prices_endpoint upper_runes (market_client (λ name. [])) (codes "AAPL" ∷ codes "BND" ∷ []))
        tt
      ≡ (ok (received (handle_prices (prices_query (codes "AAPL" ∷ codes "BND" ∷ [])))), tt)
  unfolding mock_network market_client env_or_default trim_right new_client new_market_client
      cut_prefix choose market_entries join query_escape text_eq before behind
  sent_prices = refl

  quoted :
      quotes (codes "AAPL" ∷ codes "BND" ∷ [])
      ≡ some
          (price_object (codes "AAPL") (pos 18_525) ∷ price_object (codes "BND") (pos 5_375) ∷ [])
  unfolding quotes lookup text_eq
  quoted = refl

  decoded_prices :
      prices_of upper_runes (decode_prices failure_of) (
        received (
          prices_answer (
            some (
              price_object (codes "AAPL") (pos 18_525)
              ∷ price_object (codes "BND") (pos 5_375)
              ∷ []))))
      ≡ ok mock_quotes
  unfolding prices_of decode_prices received limit_reader collect_prices price_of new_money to_upper
      trim_space insert text_eq read_int set_market_prices parse_rfc3339
  decoded_prices = refl

  read_prices :
      prices_of upper_runes
        (decode_prices failure_of)
        (received (handle_prices (prices_query (codes "AAPL" ∷ codes "BND" ∷ []))))
      ≡ ok mock_quotes
  read_prices =
      ap (λ a. prices_of upper_runes (decode_prices failure_of) (received a))
        (handle_prices-prices_query (codes "AAPL") (codes "BND" ∷ []) (ground arith) (ground arith)
          ∙ ap prices_answer quoted)
      ∙ decoded_prices

  pub prices-mock :
      (upstream_ports demo_platform).prices (codes "AAPL" ∷ codes "BND" ∷ []) tt
      ≡ (ok mock_quotes, tt)
  unfolding upstream_ports
  prices-mock =
      prices-answered (mock_network version) (market_client (λ name. [])) upper_runes
        (decode_prices failure_of) (codes "AAPL") (codes "BND" ∷ []) tt
        (received (handle_prices (prices_query (codes "AAPL" ∷ codes "BND" ∷ []))))
        (unfold mock_network in refl) sent_prices
      ∙ ap (λ r. (r, tt)) read_prices
