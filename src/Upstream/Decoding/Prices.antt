-- ===== src/Upstream/Decoding/Prices.antt =====
-- The payload of the Market API of internal/upstream/client.go, decoded from the text of a response.
use factory_demo.Base.{
  ◌≡◌, refl, ap, ◌∙◌, [], Option, none, some, Result, ok, err, Bool, true, not, if◌then◌else◌,
}
use factory_demo.Base.Int.{pos}
use factory_demo.Text.{Text, codes, is_empty}
use factory_demo.Failure.{Failure}
use factory_demo.Json.{Value}
use factory_demo.Json.Scanner.{read}
use factory_demo.Json.Structs.{
  ◌>>=◌, is_field, read_text, read_int, read_slice, read_struct, or_fresh,
}
use factory_demo.Json.Times.{read_time}
use factory_demo.Domain.Values.{zero_time}
use factory_demo.Upstream.Wire.{MarketMoney, MarketPrice, MarketPricesResponse}
use factory_demo.Upstream.Http.{Body}

-- coreMoney.
unfoldable pub set_market_money : Text → Value → MarketMoney → Option MarketMoney
unfolding is_field read_int
set_market_money key v m =
    if is_field key (codes "amount_minor")
    then (do a ← read_int v m.amount_minor; some (record m { amount_minor = a }))
    else if is_field key (codes "currency")
    then (do c ← read_text v m.currency; some (record m { currency = c }))
    else none

-- marketPrice.
unfoldable pub set_market_price : Text → Value → MarketPrice → Option MarketPrice
unfolding is_field set_market_money read_time
set_market_price key v p =
    if is_field key (codes "symbol")
    then (do s ← read_text v p.symbol; some (record p { symbol = s }))
    else if is_field key (codes "price")
    then (do m ← read_struct set_market_money v p.price; some (record p { price = m }))
    else if is_field key (codes "as_of")
    then (do t ← read_time v p.as_of; some (record p { as_of = t }))
    else none

abbrev pub no_market_price : MarketPrice
no_market_price = record {
  symbol = [];
  price = record { amount_minor = pos 0; currency = [] };
  as_of = zero_time;
}

-- marketPricesResponse. A slice that is nil is empty.
unfoldable pub set_market_prices : Text → Value → MarketPricesResponse → Option MarketPricesResponse
unfolding is_field set_market_price
set_market_prices key v r =
    if is_field key (codes "prices")
    then (do
      ps ← read_slice no_market_price (read_struct set_market_price) v (some r.prices)
      some (record r { prices = or_fresh [] ps }))
    else none

abbrev pub no_market_prices : MarketPricesResponse
no_market_prices = record { prices = [] }

-- An object or an array is complete with its last byte, any other value with the byte behind it or the
-- end of the body.
unfoldable pub is_complete : Value → Text → Body → Bool
is_complete (Value.object _) rest body = true
is_complete (Value.array _) rest body = true
is_complete _ rest body = elim body.fault [ none ↦ true | some _ ↦ not (is_empty rest) ]

abbrev payload_in : Body → Option (Value × Text) → Option MarketPricesResponse
payload_in body none = none
payload_in body (some (v, rest)) =
    if is_complete v rest body then read_struct set_market_prices v no_market_prices else none

abbrev payload_or : Failure → Option MarketPricesResponse → Result Failure MarketPricesResponse
payload_or failure none = err failure
payload_or failure (some r) = ok r

-- Decoder.Decode in MarketClient.Prices; `failure_of` is the error that it makes of a body that it cannot
-- decode.
unfoldable pub decode_prices : (Body → Failure) → Body → Result Failure MarketPricesResponse
unfolding read set_market_prices is_complete
decode_prices failure_of body = payload_or (failure_of body) (payload_in body (read body.bytes))

-- A value that is read as a whole is decoded.
pub decode_prices-read :
    (failure_of : Body → Failure) (body : Body) (v : Value) (rest : Text) (r : MarketPricesResponse)
    → read body.bytes ≡ some (v, rest)
    → is_complete v rest body ≡ true
    → read_struct set_market_prices v no_market_prices ≡ some r
    → decode_prices failure_of body ≡ ok r
unfolding decode_prices
decode_prices-read failure_of body v rest r reads complete decoded =
    ap (λ o. payload_or (failure_of body) (payload_in body o)) reads ∙ rw complete (rw decoded refl)
