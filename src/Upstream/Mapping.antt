-- ===== src/Upstream/Mapping.antt =====
-- mapCoreV1 and mapCoreV2 of internal/upstream/client.go: from a decoded payload to accounts.
pub mod Inversion
pub mod Versions
pub mod WellFormed
use factory_demo.Base.{
  List, [], ◌∷◌, Bool, true, false, not, ◌||◌, Option, none, some, Result, ok, err, ◌>>=◌, collect,
  if◌then◌else◌,
}
use factory_demo.Text.{Text, codes, text_eq, is_empty}
use factory_demo.Failure.{Failure, fixed, Fixed}
use factory_demo.Domain.Values.{Position, Account}
use factory_demo.Upstream.Wire.{
  CoreV1Money, CoreV1Position, CoreV1Account, CoreV1Response, CoreV2Money, CoreV2Balances,
  CoreV2Asset, CoreV2Portfolio, CoreV2Client, CoreV2Response,
}
use factory_demo.Upstream.Items.{core_parse_money, core_parse_position}

-- A required member, by the error of its absence.
abbrev pub required {ℓ} : {A : Type ℓ} → Fixed → Option A → Result Failure A
required f none = err (fixed f)
required f (some a) = ok a

abbrev pub nonempty : Fixed → Option Text → Result Failure Text
nonempty f none = err (fixed f)
nonempty f (some t) = if is_empty t then err (fixed f) else ok t

abbrev pub matches_id : Option Text → Text → Bool
matches_id none id = false
matches_id (some t) id = text_eq t id

-- coreCategories.
unfoldable pub is_core_category : Text → Bool
is_core_category c = text_eq c (codes "BROKERAGE") || text_eq c (codes "RETIREMENT")

abbrev pub cash_of : Option CoreV2Balances → Option CoreV2Money
cash_of none = none
cash_of (some b) = b.cash

abbrev pub client_id : Option CoreV2Client → Option Text
client_id none = none
client_id (some c) = c.id

module _ (upper_runes : Text → Text) where
  -- mapCoreV1Account.
  unfoldable pub map_core_v1_account : CoreV1Account → Result Failure Account
  map_core_v1_account item = do
    id ← nonempty Fixed.account_invalid item.account_id
    type ← nonempty Fixed.account_invalid item.account_type
    balance ← required Fixed.cash_invalid item.cash_balance
    cash ← core_parse_money upper_runes balance.amount_minor balance.currency false
    listed ← required Fixed.positions_invalid item.positions
    positions ←
        collect (λ (p : CoreV1Position). core_parse_position p.symbol p.quantity false) listed
    ok (record { id = id; type = type; cash = cash; positions = positions })

  -- mapCoreV1.
  unfoldable pub map_core_v1 : CoreV1Response → Text → Result Failure (List Account)
  map_core_v1 payload customer_id =
      if not (matches_id payload.customer_id customer_id)
      then err (fixed Fixed.identity_invalid)
      else required Fixed.contract_invalid payload.accounts >>= collect map_core_v1_account

  -- mapCoreV2Portfolio.
  unfoldable pub map_core_v2_portfolio : CoreV2Portfolio → Result Failure Account
  unfolding is_core_category
  map_core_v2_portfolio item = do
    id ← nonempty Fixed.account_invalid item.id
    category ← required Fixed.account_invalid item.category
    type ← (if is_core_category category then ok category else err (fixed Fixed.category_invalid))
    money ← required Fixed.cash_invalid (cash_of item.balances)
    cash ← core_parse_money upper_runes money.minor_units money.currency_code true
    listed ← required Fixed.assets_invalid item.assets
    positions ← collect (λ (a : CoreV2Asset). core_parse_position a.ticker a.units true) listed
    ok (record { id = id; type = type; cash = cash; positions = positions })

  -- mapCoreV2.
  unfoldable pub map_core_v2 : CoreV2Response → Text → Result Failure (List Account)
  map_core_v2 payload customer_id =
      if not (matches_id (client_id payload.client) customer_id)
      then err (fixed Fixed.identity_invalid)
      else required Fixed.contract_invalid payload.portfolios >>= collect map_core_v2_portfolio
