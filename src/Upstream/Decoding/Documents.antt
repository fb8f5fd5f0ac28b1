-- ===== src/Upstream/Decoding/Documents.antt =====
-- The Core payloads of internal/upstream/client.go as documents: each field is a member with the name
-- of its tag, and null where the pointer or the slice is nil.
use factory_demo.Base.{List, [], ◌∷◌, Option, none, some, All}
use factory_demo.Base.Int.{ℤ, Fits64}
use factory_demo.Text.{Text, codes, format_int}
use factory_demo.Json.{Value, Values, Members}
use factory_demo.Json.Quoting.{IsAscii}
use factory_demo.Upstream.Wire.{
  CoreV1Response, CoreV1Account, CoreV1Money, CoreV1Position, CoreV2Response, CoreV2Client,
  CoreV2Portfolio, CoreV2Balances, CoreV2Money, CoreV2Asset,
}

abbrev pub members : List (Text × Value) → Members
members [] = Members.no_members
members ((k, v) ∷ rest) = Members.member_and k v (members rest)

abbrev pub text_value : Option Text → Value
text_value none = Value.null
text_value (some t) = Value.text t

unfoldable pub int_value : Option ℤ → Value
unfolding format_int
int_value none = Value.null
int_value (some n) = Value.number (format_int n)

module _ {A : Type 0} where
  abbrev pub struct_value : (A → Members) → Option A → Value
  struct_value render none = Value.null
  struct_value render (some a) = Value.object (render a)

  abbrev pub values : (A → Members) → List A → Values
  values render [] = Values.no_values
  values render (a ∷ xs) = Values.value_and (Value.object (render a)) (values render xs)

  abbrev pub list_value : (A → Members) → Option (List A) → Value
  list_value render none = Value.null
  list_value render (some xs) = Value.array (values render xs)

  abbrev pub IfSome : (A → Type 0) → Option A → Type 0
  IfSome P none = Unit
  IfSome P (some a) = P a

unfoldable pub v1_money : CoreV1Money → Members
v1_money m = members (
    (codes "amount_minor", int_value m.amount_minor)
    ∷ (codes "currency", text_value m.currency)
    ∷ [])

unfoldable pub v1_position : CoreV1Position → Members
v1_position p =
    members ((codes "symbol", text_value p.symbol) ∷ (codes "quantity", text_value p.quantity) ∷ [])

unfoldable pub v1_account : CoreV1Account → Members
v1_account a = members (
    (codes "account_id", text_value a.account_id)
    ∷ (codes "account_type", text_value a.account_type)
    ∷ (codes "cash_balance", struct_value v1_money a.cash_balance)
    ∷ (codes "positions", list_value v1_position a.positions)
    ∷ [])

unfoldable pub v1_document : CoreV1Response → Value
v1_document r = Value.object (
    members (
      (codes "customer_id", text_value r.customer_id)
      ∷ (codes "accounts", list_value v1_account r.accounts)
      ∷ []))

unfoldable pub v2_money : CoreV2Money → Members
v2_money m = members (
    (codes "minor_units", int_value m.minor_units)
    ∷ (codes "currency_code", text_value m.currency_code)
    ∷ [])

unfoldable pub v2_balances : CoreV2Balances → Members
v2_balances b = members ((codes "cash", struct_value v2_money b.cash) ∷ [])

unfoldable pub v2_asset : CoreV2Asset → Members
v2_asset a =
    members ((codes "ticker", text_value a.ticker) ∷ (codes "units", text_value a.units) ∷ [])

unfoldable pub v2_portfolio : CoreV2Portfolio → Members
v2_portfolio p = members (
    (codes "id", text_value p.id)
    ∷ (codes "category", text_value p.category)
    ∷ (codes "balances", struct_value v2_balances p.balances)
    ∷ (codes "assets", list_value v2_asset p.assets)
    ∷ [])

unfoldable pub v2_client : CoreV2Client → Members
v2_client c = members ((codes "id", text_value c.id) ∷ [])

unfoldable pub v2_document : CoreV2Response → Value
v2_document r = Value.object (
    members (
      (codes "client", struct_value v2_client r.client)
      ∷ (codes "portfolios", list_value v2_portfolio r.portfolios)
      ∷ []))

-- The texts are ASCII, and the amounts fit in an int64.
abbrev pub IsPlainMoney1 : CoreV1Money → Type 0
IsPlainMoney1 m = IfSome Fits64 m.amount_minor × IfSome IsAscii m.currency

abbrev pub IsPlainPosition1 : CoreV1Position → Type 0
IsPlainPosition1 p = IfSome IsAscii p.symbol × IfSome IsAscii p.quantity

abbrev pub IsPlainAccount1 : CoreV1Account → Type 0
IsPlainAccount1 a =
    IfSome IsAscii a.account_id
    × IfSome IsAscii a.account_type
    × IfSome IsPlainMoney1 a.cash_balance
    × IfSome (All IsPlainPosition1) a.positions

abbrev pub IsPlain1 : CoreV1Response → Type 0
IsPlain1 r = IfSome IsAscii r.customer_id × IfSome (All IsPlainAccount1) r.accounts

abbrev pub IsPlainMoney2 : CoreV2Money → Type 0
IsPlainMoney2 m = IfSome Fits64 m.minor_units × IfSome IsAscii m.currency_code

abbrev pub IsPlainBalances2 : CoreV2Balances → Type 0
IsPlainBalances2 b = IfSome IsPlainMoney2 b.cash

abbrev pub IsPlainAsset2 : CoreV2Asset → Type 0
IsPlainAsset2 a = IfSome IsAscii a.ticker × IfSome IsAscii a.units

abbrev pub IsPlainPortfolio2 : CoreV2Portfolio → Type 0
IsPlainPortfolio2 p =
    IfSome IsAscii p.id
    × IfSome IsAscii p.category
    × IfSome IsPlainBalances2 p.balances
    × IfSome (All IsPlainAsset2) p.assets

abbrev pub IsPlainClient2 : CoreV2Client → Type 0
IsPlainClient2 c = IfSome IsAscii c.id

abbrev pub IsPlain2 : CoreV2Response → Type 0
IsPlain2 r = IfSome IsPlainClient2 r.client × IfSome (All IsPlainPortfolio2) r.portfolios
