-- ===== src/Mocks/Market.antt =====
-- cmd/market-mock/main.go.
use mathlib.Core.Path.{ap₂}
use factory_demo.Base.{
  ◌<◌, List, [], ◌∷◌, ◌++◌, ◌≡◌, ◌⊎◌, refl, ap, ◌∙◌, Option, none, some, Option-cases, inl, inr,
  All, All-append, map, arith,
}
use factory_demo.Base.Int.{ℤ, pos}
use factory_demo.Text.{Text, codes, split, join}
use factory_demo.Text.Cut.{split-join, Lacks}
use factory_demo.Dict.{Dict, lookup}
use factory_demo.Upstream.Http.{query_escape, Client}
use factory_demo.Upstream.Market.{prices_endpoint}
use factory_demo.Mocks.{Value, Answer, write_json, array_of, object_of}
use factory_demo.Mocks.Query.{query_get, name, Bytes, query_get-query_escape}

abbrev pub price_object : Text → ℤ → Value
price_object symbol minor = Value.object (
    object_of (
      (codes "symbol", Value.text symbol)
      ∷ (
        codes "price",
        Value.object (
            object_of (
              (codes "amount_minor", Value.number minor)
              ∷ (codes "currency", Value.text (codes "USD"))
              ∷ [])),
      )
      ∷ (codes "as_of", Value.text (codes "2026-09-05T12:00:00Z"))
      ∷ []))

-- The variable `prices`.
abbrev pub mock_prices : Dict Value
mock_prices =
    (codes "AAPL", price_object (codes "AAPL") (pos 18_525))
    ∷ (codes "BND", price_object (codes "BND") (pos 5_375))
    ∷ []

-- The loop over the symbols: the prices, or `none` at the first symbol that has none.
unfoldable pub quotes : List Text → Option (List Value)
quotes [] = some []
quotes (symbol ∷ symbols) = elim (lookup symbol mock_prices) [
  | none ↦ none
  | some price ↦ elim (quotes symbols) [ none ↦ none | some result ↦ some (price ∷ result) ]
]

-- The answer that lists prices, and the one to an unknown symbol.
abbrev pub prices_answer : Option (List Value) → Answer
prices_answer none =
    write_json 404
      (Value.object (object_of ((codes "error", Value.text (codes "price not found")) ∷ [])))
prices_answer (some result) =
    write_json 200 (Value.object (object_of ((codes "prices", Value.array (array_of result)) ∷ [])))

-- The handler of GET /v1/prices, on the raw query of the request.
unfoldable pub handle_prices : Text → Answer
unfolding quotes
handle_prices query = prices_answer (quotes (split b',' (query_get name query)))

-- The handler of GET /health.
abbrev pub handle_health : Answer
handle_health =
    write_json 200 (Value.object (object_of ((codes "status", Value.text (codes "ok")) ∷ [])))

-- The query of the endpoint that the market client asks.
abbrev pub prices_query : List Text → Text
prices_query symbols = codes "symbols=" ++ query_escape (join b',' symbols)

join-Bytes : (symbols : List Text) → All Bytes symbols → Bytes (join b',' symbols)
unfolding join
join-Bytes [] h = tt
join-Bytes (s ∷ []) h = h.0
join-Bytes (s ∷ t ∷ symbols) h =
    All-append (λ c. c < 256) s (b',' ∷ join b',' (t ∷ symbols)) h.0
      (omega arith, join-Bytes (t ∷ symbols) h.1)

-- The prices of the symbols, in order.
pub record AreQuoted (symbols : List Text) (result : List Value) : Type 0 where
  pub each : map (λ s. lookup s mock_prices) symbols ≡ map (λ v. some v) result

-- One of the symbols has no price.
pub record HasUnknown (symbols : List Text) : Type 0 where
  pub earlier : List Text
  pub unknown : Text
  pub later : List Text
  pub among : symbols ≡ earlier ++ unknown ∷ later
  pub unpriced : lookup unknown mock_prices ≡ none

pub quotes-cases :
    (symbols : List Text)
    → ((result : List Value) × AreQuoted symbols result × (quotes symbols ≡ some result))
      ⊎ (HasUnknown symbols × (quotes symbols ≡ none))
unfolding quotes
quotes-cases [] = inl ([], record { each = refl }, refl)
quotes-cases (s ∷ symbols) = elim (Option-cases (lookup s mock_prices)) [
  | inl absent ↦ inr (
    record { earlier = []; unknown = s; later = symbols; among = refl; unpriced = absent },
    ground (arith, absent),
  )
  | inr (price, found) ↦ elim (quotes-cases symbols) [
    | inl (result, q, e) ↦ inl (
      price ∷ result,
      record { each = ap₂ (λ o os. o ∷ os) found q.each },
      ground (arith, found, e),
    )
    | inr (u, e) ↦ inr (
      record {
        earlier = s ∷ u.earlier;
        unknown = u.unknown;
        later = u.later;
        among = ap (λ ss. s ∷ ss) u.among;
        unpriced = u.unpriced;
      },
      ground (arith, found, e),
    )
  ]
]

handle_prices-read :
    (s : Text) (symbols : List Text)
    → All (Lacks b',') (s ∷ symbols)
    → All Bytes (s ∷ symbols)
    → split b',' (query_get name (prices_query (s ∷ symbols))) ≡ s ∷ symbols
handle_prices-read s symbols h k =
    ap (split b',') (query_get-query_escape (join b',' (s ∷ symbols)) (join-Bytes (s ∷ symbols) k))
    ∙ split-join b',' s symbols h

pub handle_prices-prices_query :
    (s : Text) (symbols : List Text)
    → All (Lacks b',') (s ∷ symbols)
    → All Bytes (s ∷ symbols)
    → handle_prices (prices_query (s ∷ symbols)) ≡ prices_answer (quotes (s ∷ symbols))
unfolding handle_prices
handle_prices-prices_query s symbols h k =
    ap (λ ss. prices_answer (quotes ss)) (handle_prices-read s symbols h k)

-- The endpoint that the market client asks for symbols without commas ends in a query to which the
-- market mock answers with 200 and the prices of exactly those symbols in order, or with 404 if one
-- of them has no price.
pub handle_prices-prices_endpoint :
    (upper_runes : Text → Text) (client : Client) (s : Text) (symbols : List Text)
    → All (Lacks b',') (s ∷ symbols)
    → All Bytes (s ∷ symbols)
    → (query : Text) × (prices_endpoint upper_runes client (s ∷ symbols)
        ≡ client.base_url ++ (codes "/v1/prices?" ++ query))
      × (((result : List Value) × AreQuoted (s ∷ symbols) result
            × (handle_prices query ≡ prices_answer (some result)))
          ⊎ (HasUnknown (s ∷ symbols) × ((handle_prices query).status ≡ 404)))
handle_prices-prices_endpoint u client s symbols h k =
    let answered = handle_prices-prices_query s symbols h k in
    (
      prices_query (s ∷ symbols),
      refl,
      elim (quotes-cases (s ∷ symbols)) [
        | inl (result, q, e) ↦ inl (result, q, answered ∙ ap prices_answer e)
        | inr (unknown, e) ↦ inr (unknown, ap (λ a. a.status) (answered ∙ ap prices_answer e))
      ],
    )
