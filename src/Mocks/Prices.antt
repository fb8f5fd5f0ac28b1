-- ===== src/Mocks/Prices.antt =====
-- The market client of internal/upstream/client.go on the answers of cmd/market-mock.
pub mod Readings
use mathlib.Core.Path.{subst, ap₂}
use factory_demo.Base.{
  ℕ, ◌<◌, length, lt→ltb, map_err, ◌>>=◌, List, [], ◌∷◌, ◌++◌, ◌≡◌, ◌≢◌, ◌⊎◌, inl, inr, refl, sym,
  ap, ◌∙◌, Bool, ◌||◌, Option, none, some, map, Bool-cases, Option-cases, false, true, ok, err,
  arith, All, if◌then◌else◌,
}
use factory_demo.Base.Int.{ℤ, pos, wrap64, ◌-ℤ◌, ◌*ℤ◌}
use factory_demo.Text.{Text, codes, text_eq, to_upper, trim_space, parse_int, format_int}
use factory_demo.Text.Order.{text_eq_iff}
use factory_demo.Text.Cut.{Lacks}
use factory_demo.Failure.{Failure, Service, Context, within, status}
use factory_demo.Dict.{Dict, lookup, insert, lookup-insert}
use factory_demo.Domain.Money.{new_money}
use factory_demo.Domain.Values.{Price, Time}
use factory_demo.Json as json
use factory_demo.Json.Encoder.{encode}
use factory_demo.Json.Scanner.{read}
use factory_demo.Json.Structs.{read_struct, read_members, read_elements, read_int}
use factory_demo.Json.Times.{parse_rfc3339, read_time}
use factory_demo.Json.RoundTrip.{IsEncodable, AreEncodable}
use factory_demo.Json.RoundTrip.Nested.{read-encode}
use factory_demo.Upstream.Wire.{MarketPrice, MarketPricesResponse}
use factory_demo.Upstream.Http.{Body, Client, max_response_bytes, limit_reader}
use factory_demo.Upstream.Market.{prices_endpoint, price_of, collect_prices, prices_of}
use factory_demo.Upstream.Decoding.Prices.{
  set_market_price, no_market_price, set_market_prices, no_market_prices, decode_prices,
  decode_prices-read, is_complete,
}
use factory_demo.Mocks.{Value, Answer, array_of}
use factory_demo.Mocks.Encoding.{marshal, marshal_values, written}
use factory_demo.Mocks.Client.Payloads.{received}
use factory_demo.Mocks.Query.{Bytes}
use factory_demo.Mocks.Market.{
  prices_answer, mock_prices, price_object, prices_query, quotes, quotes-cases, handle_prices,
  handle_prices-prices_query, HasUnknown, AreQuoted,
}
use factory_demo.Mocks.Prices.Readings.{mock_quotes, listed, AreRead, quotes-AreRead, collect-known}

module _ (upper_runes : Text → Text) where
  -- The document that lists prices of the mock, and what the client decodes from it.
  abbrev document : json.Values → json.Value
  document vs =
      json.Value.object
        (json.Members.member_and (codes "prices") (json.Value.array vs) json.Members.no_members)

  document_read :
      (vs : json.Values) (items : List MarketPrice)
      → read_elements no_market_price (read_struct set_market_price) vs [] ≡ some items
      → read_struct set_market_prices (document vs) no_market_prices
        ≡ some (record { prices = items })
  unfolding set_market_prices
  document_read vs items h = rw h refl

  decode_prices-document :
      (failure_of : Body → Failure) (symbols : List Text) (vs : json.Values)
      (r : AreRead upper_runes symbols vs)
      → decode_prices failure_of
          (record { bytes = encode (document vs) ++ b'\n' ∷ []; fault = none })
        ≡ ok (record { prices = r.items })
  unfolding IsEncodable
  decode_prices-document failure_of symbols vs r =
      decode_prices-read failure_of _ (document vs) (b'\n' ∷ []) (record { prices = r.items })
        (read-encode (document vs) (b'\n' ∷ [])
          (ground arith, (ground arith, (ground arith, r.encodable), tt)) tt)
        (unfold is_complete in refl) (document_read vs r.items r.decoded)

  limit_reader_short : (n : ℕ) (body : Body) → length body.bytes < n → limit_reader n body ≡ body
  unfolding limit_reader
  limit_reader_short n body h = rw (lt→ltb (length body.bytes) n h) refl

  prices_of-listing :
      (failure_of : Body → Failure) (symbols : List Text) (result : List Value)
      → AreRead upper_runes symbols (marshal_values (array_of result))
      → length (written (prices_answer (some result))) < max_response_bytes
      → (d : Dict Price) × (prices_of upper_runes
            (decode_prices failure_of)
            (received (prices_answer (some result)))
          ≡ ok d)
        × ((t : Text) → lookup t d ≡ (if listed t symbols then lookup t mock_quotes else none))
  unfolding prices_of received written marshal lookup
  prices_of-listing failure_of symbols result r fits =
      let (d, collected, holds) = collect-known upper_runes r.items [] r.priced in
      let decoded =
        decode_prices-document failure_of symbols (marshal_values (array_of result)) r in
      (
        d,
        ap
              (λ b.
                map_err (within Context.decode_market_response) (decode_prices failure_of b)
                >>= λ p. collect_prices upper_runes p.prices [])
              (limit_reader_short max_response_bytes (received (prices_answer (some result))).body
                fits)
            ∙ rw decoded collected,
        λ t. holds t ∙ ap (λ ss. if listed t ss then lookup t mock_quotes else none) r.listed,
      )

  -- The endpoint that the market client asks for symbols without commas ends in a query to which the market
  -- mock gives an answer; where that is shorter than a mebibyte, the client takes from it exactly the
  -- mock's prices of those symbols, or one of them has no price, and it reports the status 404.
  pub prices_of-handle_prices :
      (failure_of : Body → Failure) (client : Client) (s : Text) (symbols : List Text)
      → All (Lacks b',') (s ∷ symbols)
      → All Bytes (s ∷ symbols)
      → length (written (handle_prices (prices_query (s ∷ symbols)))) < max_response_bytes
      → (prices_endpoint upper_runes client (s ∷ symbols)
          ≡ client.base_url ++ (codes "/v1/prices?" ++ prices_query (s ∷ symbols)))
        × (((d : Dict Price) × (prices_of upper_runes
                  (decode_prices failure_of)
                  (received (handle_prices (prices_query (s ∷ symbols))))
                ≡ ok d)
              × ((t : Text)
                  → lookup t d ≡ (if listed t (s ∷ symbols) then lookup t mock_quotes else none)))
            ⊎ (HasUnknown (s ∷ symbols)
                × (prices_of upper_runes
                      (decode_prices failure_of)
                      (received (handle_prices (prices_query (s ∷ symbols))))
                    ≡ err (status Service.market 404))))
  prices_of-handle_prices failure_of client s symbols h k fits =
      let answered = handle_prices-prices_query s symbols h k in
      (
        refl,
        elim (quotes-cases (s ∷ symbols)) [
          | inl (result, q, e) ↦
              let answer : handle_prices (prices_query (s ∷ symbols))
                  ≡ prices_answer (some result) =
                answered ∙ ap prices_answer e in
              let (d, same, holds) =
                prices_of-listing failure_of (s ∷ symbols) result
                  (quotes-AreRead upper_runes (s ∷ symbols) result e)
                  (subst (λ a. length (written a) < max_response_bytes) answer fits) in
              inl (
                d,
                ap (λ a. prices_of upper_runes (decode_prices failure_of) (received a)) answer
                    ∙ same,
                holds,
              )
          | inr (unknown, e) ↦ inr (
            unknown,
            ap (λ a. prices_of upper_runes (decode_prices failure_of) (received a))
                  (answered ∙ ap prices_answer e)
                ∙ unfold prices_of received in refl,
          )
        ],
      )
