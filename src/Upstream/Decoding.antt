-- ===== src/Upstream/Decoding.antt =====
-- The Core payloads of internal/upstream/client.go, decoded from the text of a response: the fields of
-- each struct by its tags, and what strictDecodeCore and detectCoreVersion use of encoding/json. What
-- an array that is given three times leaves behind the length of the second is not modelled.
pub mod Documents
pub mod RoundTrip
pub mod Encodable
pub mod Payloads
pub mod Accounts
pub mod Prices
use factory_demo.Base.{List, [], ◌∷◌, Option, none, some, if◌then◌else◌}
use factory_demo.Base.Int.{pos}
use factory_demo.Text.{Text, codes, is_empty}
use factory_demo.Json.{Value, Members, skip_space}
use factory_demo.Json.Scanner.{read}
use factory_demo.Json.Structs.{
  ◌>>=◌, is_field, read_text, read_int, read_pointer, read_slice, read_struct, decode,
}
use factory_demo.Upstream.Wire.{
  CoreV1Response, CoreV1Account, CoreV1Money, CoreV1Position, CoreV2Response, CoreV2Client,
  CoreV2Portfolio, CoreV2Balances, CoreV2Money, CoreV2Asset,
}
use factory_demo.Upstream.Core.{Json}

abbrev pub text_pointer : Value → Option Text → Option (Option Text)
text_pointer = read_pointer [] read_text

-- coreV1Money.
unfoldable pub set_v1_money : Text → Value → CoreV1Money → Option CoreV1Money
unfolding is_field
set_v1_money key v m =
    if is_field key (codes "amount_minor")
    then (do
      a ← read_pointer (pos 0) read_int v m.amount_minor
      some (record m { amount_minor = a }))
    else if is_field key (codes "currency")
    then (do c ← text_pointer v m.currency; some (record m { currency = c }))
    else none

abbrev pub no_v1_money : CoreV1Money
no_v1_money = record { amount_minor = none; currency = none }

-- coreV1Position.
unfoldable pub set_v1_position : Text → Value → CoreV1Position → Option CoreV1Position
unfolding is_field
set_v1_position key v p =
    if is_field key (codes "symbol")
    then (do s ← text_pointer v p.symbol; some (record p { symbol = s }))
    else if is_field key (codes "quantity")
    then (do q ← text_pointer v p.quantity; some (record p { quantity = q }))
    else none

abbrev pub no_v1_position : CoreV1Position
no_v1_position = record { symbol = none; quantity = none }

-- coreV1Account.
unfoldable pub set_v1_account : Text → Value → CoreV1Account → Option CoreV1Account
unfolding is_field set_v1_money set_v1_position
set_v1_account key v a =
    if is_field key (codes "account_id")
    then (do i ← text_pointer v a.account_id; some (record a { account_id = i }))
    else if is_field key (codes "account_type")
    then (do t ← text_pointer v a.account_type; some (record a { account_type = t }))
    else if is_field key (codes "cash_balance")
    then (do
      c ← read_pointer no_v1_money (read_struct set_v1_money) v a.cash_balance
      some (record a { cash_balance = c }))
    else if is_field key (codes "positions")
    then (do
      ps ← read_slice no_v1_position (read_struct set_v1_position) v a.positions
      some (record a { positions = ps }))
    else none

abbrev pub no_v1_account : CoreV1Account
no_v1_account = record {
  account_id = none;
  account_type = none;
  cash_balance = none;
  positions = none;
}

-- coreV1Response.
unfoldable pub set_v1_response : Text → Value → CoreV1Response → Option CoreV1Response
unfolding is_field set_v1_account
set_v1_response key v r =
    if is_field key (codes "customer_id")
    then (do i ← text_pointer v r.customer_id; some (record r { customer_id = i }))
    else if is_field key (codes "accounts")
    then (do
      accounts ← read_slice no_v1_account (read_struct set_v1_account) v r.accounts
      some (record r { accounts = accounts }))
    else none

abbrev pub no_v1_response : CoreV1Response
no_v1_response = record { customer_id = none; accounts = none }

-- coreV2Money.
unfoldable pub set_v2_money : Text → Value → CoreV2Money → Option CoreV2Money
unfolding is_field
set_v2_money key v m =
    if is_field key (codes "minor_units")
    then (do a ← read_pointer (pos 0) read_int v m.minor_units; some (record m { minor_units = a }))
    else if is_field key (codes "currency_code")
    then (do c ← text_pointer v m.currency_code; some (record m { currency_code = c }))
    else none

abbrev pub no_v2_money : CoreV2Money
no_v2_money = record { minor_units = none; currency_code = none }

-- coreV2Balances.
unfoldable pub set_v2_balances : Text → Value → CoreV2Balances → Option CoreV2Balances
unfolding is_field set_v2_money
set_v2_balances key v b =
    if is_field key (codes "cash")
    then (do
      c ← read_pointer no_v2_money (read_struct set_v2_money) v b.cash
      some (record b { cash = c }))
    else none

abbrev pub no_v2_balances : CoreV2Balances
no_v2_balances = record { cash = none }

-- coreV2Asset.
unfoldable pub set_v2_asset : Text → Value → CoreV2Asset → Option CoreV2Asset
unfolding is_field
set_v2_asset key v a =
    if is_field key (codes "ticker")
    then (do t ← text_pointer v a.ticker; some (record a { ticker = t }))
    else if is_field key (codes "units")
    then (do u ← text_pointer v a.units; some (record a { units = u }))
    else none

abbrev pub no_v2_asset : CoreV2Asset
no_v2_asset = record { ticker = none; units = none }

-- coreV2Portfolio.
unfoldable pub set_v2_portfolio : Text → Value → CoreV2Portfolio → Option CoreV2Portfolio
unfolding is_field set_v2_balances set_v2_asset
set_v2_portfolio key v p =
    if is_field key (codes "id")
    then (do i ← text_pointer v p.id; some (record p { id = i }))
    else if is_field key (codes "category")
    then (do c ← text_pointer v p.category; some (record p { category = c }))
    else if is_field key (codes "balances")
    then (do
      b ← read_pointer no_v2_balances (read_struct set_v2_balances) v p.balances
      some (record p { balances = b }))
    else if is_field key (codes "assets")
    then (do
      assets ← read_slice no_v2_asset (read_struct set_v2_asset) v p.assets
      some (record p { assets = assets }))
    else none

abbrev pub no_v2_portfolio : CoreV2Portfolio
no_v2_portfolio = record { id = none; category = none; balances = none; assets = none }

-- coreV2Client.
unfoldable pub set_v2_client : Text → Value → CoreV2Client → Option CoreV2Client
unfolding is_field
set_v2_client key v c =
    if is_field key (codes "id")
    then (do i ← text_pointer v c.id; some (record c { id = i }))
    else none

abbrev pub no_v2_client : CoreV2Client
no_v2_client = record { id = none }

-- coreV2Response.
unfoldable pub set_v2_response : Text → Value → CoreV2Response → Option CoreV2Response
unfolding is_field set_v2_client set_v2_portfolio
set_v2_response key v r =
    if is_field key (codes "client")
    then (do
      c ← read_pointer no_v2_client (read_struct set_v2_client) v r.client
      some (record r { client = c }))
    else if is_field key (codes "portfolios")
    then (do
      ps ← read_slice no_v2_portfolio (read_struct set_v2_portfolio) v r.portfolios
      some (record r { portfolios = ps }))
    else none

abbrev pub no_v2_response : CoreV2Response
no_v2_response = record { client = none; portfolios = none }

abbrev pub member_names : Members → List Text
member_names Members.no_members = []
member_names (Members.member_and k v ms) = k ∷ member_names ms

-- The keys of a map that a value is decoded into; null leaves the map nil.
abbrev pub keys_of : Value → Option (List Text)
keys_of Value.null = some []
keys_of (Value.object ms) = some (member_names ms)
keys_of _ = none

-- json.Unmarshal into a map of raw messages: one value, and white space behind it only.
unfoldable pub top_keys : Text → Option (List Text)
unfolding read skip_space
top_keys raw = do (v, rest) ← read raw; if is_empty (skip_space rest) then keys_of v else none

-- encoding/json as the Core client uses it.
unfoldable pub go_json : Json
unfolding top_keys set_v1_response set_v2_response
go_json = record {
  top_keys = top_keys;
  decode_v1 = decode set_v1_response no_v1_response;
  decode_v2 = decode set_v2_response no_v2_response;
  at_end = λ rest. is_empty (skip_space rest);
}
