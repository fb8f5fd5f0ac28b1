-- ===== src/Upstream/Market/Listing.antt =====
-- What the market client takes from a list of prices.
use factory_demo.Base.{
  List, [], ◌∷◌, ◌++◌, ◌≡◌, ◌≢◌, ◌⊎◌, inl, inr, refl, ap, false, none, some, ok, arith, All, length,
  Bool-cases, Result-cases, Result, Option,
}
use factory_demo.Text.{Text, is_empty, to_upper, trim_space, text_eq}
use factory_demo.Text.Order.{text_eq_iff}
use factory_demo.Failure.{Failure}
use factory_demo.Dict.{Dict, lookup, insert, lookup-insert}
use factory_demo.Domain.Money.{new_money}
use factory_demo.Domain.Values.{Price, is_zero_time}
use factory_demo.Upstream.Wire.{MarketPrice, MarketPricesResponse}
use factory_demo.Upstream.Http.{Body, Response, max_response_bytes, limit_reader}
use factory_demo.Upstream.Market.{price_of, collect_prices, prices_of}

module _ (upper_runes : Text → Text) where
  -- A price that the contract allows.
  pub record IsQuote (item : MarketPrice) : Type 0 where
    pub named : item.symbol ≢ []
    pub dated : is_zero_time item.as_of ≡ false
    pub coded : length (to_upper upper_runes (trim_space item.price.currency)) ≡ 3

  -- The price as the client holds it.
  abbrev pub quoted : MarketPrice → Price
  quoted item = record {
    symbol = item.symbol;
    value = record {
      minor = item.price.amount_minor;
      currency = to_upper upper_runes (trim_space item.price.currency);
    };
    as_of = item.as_of;
  }

  is_empty_ne : (s : Text) → is_empty s ≡ false → s ≢ []
  is_empty_ne [] h = cc
  is_empty_ne (c ∷ s) h = λ e. cc

  price_of-ok :
      (item : MarketPrice) (p : Price)
      → price_of upper_runes item ≡ ok p
      → IsQuote item × (p ≡ quoted item)
  unfolding price_of new_money
  price_of-ok item p h = (
    record {
      named = is_empty_ne item.symbol (ground arith);
      dated = ground arith;
      coded = ground arith;
    },
    ground arith,
  )

  -- The last price in the list with the symbol.
  pub record IsLast (symbol : Text) (items : List MarketPrice) (item : MarketPrice) : Type 0 where
    pub earlier : List MarketPrice
    pub later : List MarketPrice
    pub listed : items ≡ earlier ++ item ∷ later
    pub same : item.symbol ≡ symbol
    pub last : All (λ i. i.symbol ≢ symbol) later

  -- What a map holds for a symbol behind a list of prices, and in front of it.
  abbrev Holds : Text → List MarketPrice → Option Price → Option Price → Type 0
  Holds symbol items start found =
      ((found ≡ start) × All (λ i. i.symbol ≢ symbol) items)
      ⊎ ((item : MarketPrice) × IsLast symbol items item × (found ≡ some (quoted item)))

  IsLast-later :
      (symbol : Text) (first : MarketPrice) (items : List MarketPrice) (item : MarketPrice)
      → IsLast symbol items item
      → IsLast symbol (first ∷ items) item
  IsLast-later symbol first items item l = record {
    earlier = first ∷ l.earlier;
    later = l.later;
    listed = ap (λ is. first ∷ is) l.listed;
    same = l.same;
    last = l.last;
  }

  Holds-later :
      (symbol : Text) (first : MarketPrice) (items : List MarketPrice) (m : Dict Price)
      (found : Option Price)
      → Holds symbol items (lookup symbol (insert first.symbol (quoted first) m)) found
      → Holds symbol (first ∷ items) (lookup symbol m) found
  Holds-later symbol first items m found (inr (item, l, e)) =
      inr (item, IsLast-later symbol first items item l, e)
  Holds-later symbol first items m found (inl (e, none_later)) =
      elim (Bool-cases (text_eq first.symbol symbol)) [
        | inl same ↦ inr (
          first,
          record {
            earlier = [];
            later = items;
            listed = refl;
            same = (text_eq_iff first.symbol symbol).0 same;
            last = none_later;
          },
          ground (arith, lookup-insert first.symbol symbol (quoted first) m),
        )
        | inr other ↦ inl (
          ground (arith, lookup-insert first.symbol symbol (quoted first) m),
          (λ same. ground (arith, text_eq_iff first.symbol symbol), none_later),
        )
      ]

  collect_prices-Holds :
      (items : List MarketPrice) (m m' : Dict Price) (symbol : Text)
      → collect_prices upper_runes items m ≡ ok m'
      → All IsQuote items × Holds symbol items (lookup symbol m) (lookup symbol m')
  unfolding collect_prices
  collect_prices-Holds [] m m' symbol h = (tt, inl (ground arith, tt))
  collect_prices-Holds (item ∷ items) m m' symbol h =
      elim (Result-cases (price_of upper_runes item)) [
        | inr (failure, refused) ↦ absurd (ground arith)
        | inl (p, priced) ↦
            let (quote, same) = price_of-ok item p priced in
            let (quotes, held) =
              collect_prices-Holds items (insert item.symbol (quoted item) m) m' symbol
                (ground arith) in
            ((quote, quotes), Holds-later symbol item items m (lookup symbol m') held)
      ]

  -- In the prices that are returned from a response that the decoder reads, a symbol has the price
  -- of the last item that lists it, and none where no item does.
  pub prices_of-Holds :
      (decode : Body → Result Failure MarketPricesResponse) (response : Response)
      (payload : MarketPricesResponse) (m : Dict Price)
      → decode (limit_reader max_response_bytes response.body) ≡ ok payload
      → prices_of upper_runes decode response ≡ ok m
      → (symbol : Text)
      → ((lookup symbol m ≡ none) × All (λ i. i.symbol ≢ symbol) payload.prices)
        ⊎ ((item : MarketPrice) × IsLast symbol payload.prices item
            × (lookup symbol m ≡ some (quoted item)))
  unfolding prices_of lookup
  prices_of-Holds decode response payload m h e symbol =
      (collect_prices-Holds payload.prices [] m symbol (ground arith)).1
