-- ===== src/Mocks/Prices/Readings.antt =====
-- The prices of cmd/market-mock as the market client of internal/upstream/client.go decodes and holds them.
use mathlib.Core.Path.{subst, ap₂}
use factory_demo.Base.{
  List, [], ◌∷◌, ◌≡◌, inl, inr, refl, sym, ap, ◌∙◌, Bool, ◌||◌, some, map, Bool-cases, Option-cases,
  false, ok, arith, All, if◌then◌else◌,
}
use factory_demo.Base.Int.{ℤ, pos}
use factory_demo.Text.{Text, codes, text_eq, to_upper, trim_space}
use factory_demo.Text.Order.{text_eq_iff}
use factory_demo.Dict.{Dict, lookup, insert, lookup-insert}
use factory_demo.Domain.Money.{new_money}
use factory_demo.Domain.Values.{Price, Time}
use factory_demo.Json as json
use factory_demo.Json.Structs.{read_struct, read_elements, read_int}
use factory_demo.Json.Times.{parse_rfc3339}
use factory_demo.Json.RoundTrip.{IsEncodable, AreEncodable}
use factory_demo.Upstream.Wire.{MarketPrice}
use factory_demo.Upstream.Market.{price_of, collect_prices}
use factory_demo.Upstream.Decoding.Prices.{set_market_price, no_market_price}
use factory_demo.Mocks.{Value, array_of}
use factory_demo.Mocks.Encoding.{marshal, marshal_values}
use factory_demo.Mocks.Market.{mock_prices, price_object, quotes}

-- The time of the mock's prices: noon of the fifth of September 2026.
abbrev pub mock_time : Time
mock_time = record { instant = pos 63_924_206_400_000_000_000; offset = pos 0 }

parse_mock_time : parse_rfc3339 (codes "2026-09-05T12:00:00Z") ≡ some mock_time
unfolding parse_rfc3339
parse_mock_time = refl

abbrev mock_item : Text → ℤ → MarketPrice
mock_item symbol minor = record {
  symbol = symbol;
  price = record { amount_minor = minor; currency = codes "USD" };
  as_of = mock_time;
}

abbrev mock_quote : Text → ℤ → Price
mock_quote symbol minor = record {
  symbol = symbol;
  value = record { minor = minor; currency = codes "USD" };
  as_of = mock_time;
}

-- The mock's prices as the client holds them.
abbrev pub mock_quotes : Dict Price
mock_quotes =
    (codes "AAPL", mock_quote (codes "AAPL") (pos 18_525))
    ∷ (codes "BND", mock_quote (codes "BND") (pos 5_375))
    ∷ []

-- The text stands in the list.
abbrev pub listed : Text → List Text → Bool
listed t [] = false
listed t (s ∷ ss) = text_eq s t || listed t ss

module _ (upper_runes : Text → Text) where
  -- A price of the mock, with what the client decodes and holds.
  record IsRead (s : Text) (v : Value) : Type 0 where
    item : MarketPrice
    price : Price
    decoded : read_struct set_market_price (marshal v) no_market_price ≡ some item
    encodable : IsEncodable 2 (marshal v)
    named : item.symbol ≡ s
    priced : price_of upper_runes item ≡ ok price
    known : lookup s mock_quotes ≡ some price

  aapl-IsRead : IsRead (codes "AAPL") (price_object (codes "AAPL") (pos 18_525))
  unfolding set_market_price marshal IsEncodable price_of new_money to_upper trim_space lookup
      text_eq read_int parse_rfc3339
  aapl-IsRead = record {
    item = mock_item (codes "AAPL") (pos 18_525);
    price = mock_quote (codes "AAPL") (pos 18_525);
    decoded = refl;
    encodable = ground arith;
    named = refl;
    priced = refl;
    known = refl;
  }

  bnd-IsRead : IsRead (codes "BND") (price_object (codes "BND") (pos 5_375))
  unfolding set_market_price marshal IsEncodable price_of new_money to_upper trim_space lookup
      text_eq read_int parse_rfc3339
  bnd-IsRead = record {
    item = mock_item (codes "BND") (pos 5_375);
    price = mock_quote (codes "BND") (pos 5_375);
    decoded = refl;
    encodable = ground arith;
    named = refl;
    priced = refl;
    known = refl;
  }

  lookup-IsRead : (s : Text) (v : Value) → lookup s mock_prices ≡ some v → IsRead s v
  unfolding lookup
  lookup-IsRead s v h = elim (Bool-cases (text_eq (codes "AAPL") s)) [
    | inl first ↦
        let same : codes "AAPL" ≡ s = (text_eq_iff (codes "AAPL") s).0 first in
        let value : price_object (codes "AAPL") (pos 18_525) ≡ v = ground (arith, first, h) in
        subst (λ t. IsRead t v) same (subst (IsRead (codes "AAPL")) value aapl-IsRead)
    | inr other ↦ elim (Bool-cases (text_eq (codes "BND") s)) [
      | inl second ↦
          let same : codes "BND" ≡ s = (text_eq_iff (codes "BND") s).0 second in
          let value : price_object (codes "BND") (pos 5_375) ≡ v =
            ground (arith, other, second, h) in
          subst (λ t. IsRead t v) same (subst (IsRead (codes "BND")) value bnd-IsRead)
      | inr neither ↦ absurd (ground (arith, other, neither, h))
    ]
  ]

  -- Prices of the mock, as the client decodes them.
  pub record AreRead (symbols : List Text) (vs : json.Values) : Type 0 where
    pub items : List MarketPrice
    pub decoded : read_elements no_market_price (read_struct set_market_price) vs [] ≡ some items
    pub encodable : AreEncodable 2 vs
    pub listed : map (λ i. i.symbol) items ≡ symbols
    pub priced :
        All
          (λ i.
            (p : Price) × (price_of upper_runes i ≡ ok p) × (lookup i.symbol mock_quotes ≡ some p))
          items

  nothing_read : AreRead [] (marshal_values (array_of []))
  unfolding marshal IsEncodable
  nothing_read = record { items = []; decoded = refl; encodable = tt; listed = refl; priced = tt }

  quotes-next :
      (s : Text) (symbols : List Text) (result : List Value)
      → quotes (s ∷ symbols) ≡ some result
      → (v : Value) × (vs : List Value) × (v ∷ vs ≡ result)
        × (lookup s mock_prices ≡ some v)
        × (quotes symbols ≡ some vs)
  unfolding quotes
  quotes-next s symbols result h = elim (Option-cases (lookup s mock_prices)) [
    | inl absent ↦ absurd (ground (arith, absent, h))
    | inr (v, found) ↦ elim (Option-cases (quotes symbols)) [
      | inl unknown ↦ absurd (ground (arith, found, unknown, h))
      | inr (vs, rest) ↦ (v, vs, ground (arith, found, rest, h), found, rest)
    ]
  ]

  AreRead-next :
      (s : Text) (symbols : List Text) (v : Value) (vs : List Value)
      → IsRead s v
      → AreRead symbols (marshal_values (array_of vs))
      → AreRead (s ∷ symbols) (marshal_values (array_of (v ∷ vs)))
  unfolding marshal IsEncodable
  AreRead-next s symbols v vs r rs = record {
    items = r.item ∷ rs.items;
    decoded = rw r.decoded (rw rs.decoded refl);
    encodable = (r.encodable, rs.encodable);
    listed = ap₂ (λ t ts. t ∷ ts) r.named rs.listed;
    priced = ((r.price, r.priced, ap (λ t. lookup t mock_quotes) r.named ∙ r.known), rs.priced);
  }

  pub quotes-AreRead :
      (symbols : List Text) (result : List Value)
      → quotes symbols ≡ some result
      → AreRead symbols (marshal_values (array_of result))
  quotes-AreRead [] result h =
      let same : [] ≡ result = unfold quotes in cc h in
      subst (λ vs. AreRead [] (marshal_values (array_of vs))) same nothing_read
  quotes-AreRead (s ∷ symbols) result h =
      let (v, vs, same, found, rest) = quotes-next s symbols result h in
      subst (λ vs. AreRead (s ∷ symbols) (marshal_values (array_of vs))) same
        (AreRead-next s symbols v vs (lookup-IsRead s v found) (quotes-AreRead symbols vs rest))

  listed-insert :
      (s t : Text) (symbols : List Text) (p : Price) (m : Dict Price)
      → lookup s mock_quotes ≡ some p
      → (if listed t symbols then lookup t mock_quotes else lookup t (insert s p m))
        ≡ (if listed t (s ∷ symbols) then lookup t mock_quotes else lookup t m)
  listed-insert s t symbols p m known = elim (Bool-cases (text_eq s t)) [
    | inr other ↦ ground (arith, other, lookup-insert s t p m)
    | inl same ↦
        let held : lookup t mock_quotes ≡ some p =
          ap (λ u. lookup u mock_quotes) (sym ((text_eq_iff s t).0 same)) ∙ known in
        ground (arith, same, held, lookup-insert s t p m)
  ]

  -- What a map holds behind prices that are the mock's.
  pub collect-known :
      (items : List MarketPrice) (m : Dict Price)
      → All
          (λ i.
            (p : Price) × (price_of upper_runes i ≡ ok p) × (lookup i.symbol mock_quotes ≡ some p))
          items
      → (d : Dict Price) × (collect_prices upper_runes items m ≡ ok d)
        × ((t : Text)
            → lookup t d
              ≡ (if listed t (map (λ i. i.symbol) items) then lookup t mock_quotes else lookup t m))
  unfolding collect_prices
  collect-known [] m h = (m, refl, λ t. refl)
  collect-known (i ∷ items) m ((p, priced, known), h) =
      let (d, collected, holds) = collect-known items (insert i.symbol p m) h in
      (
        d,
        rw priced collected,
        λ t. holds t ∙ listed-insert i.symbol t (map (λ j. j.symbol) items) p m known,
      )
