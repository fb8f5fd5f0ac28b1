-- ===== src/Upstream/Mapping/Versions.antt =====
-- The v2 payloads of the Core API in the shape of v1, and mapCoreV1 on them.
use mathlib.Core.Bool.{false≢true}
use factory_demo.Base.{
  List, [], ◌≡◌, ◌≢◌, ap, ◌∙◌, ◌∷◌, ok, Option, some, none, true, false, arith, map, collect-map,
}
use factory_demo.Base.Int.{ℤ}
use factory_demo.Text.{Text, text_eq}
use factory_demo.Domain.Money.{Money}
use factory_demo.Domain.Values.{Position, Account}
use factory_demo.Upstream.Wire.{
  CoreV1Money, CoreV1Position, CoreV1Account, CoreV1Response, CoreV2Money, CoreV2Asset,
  CoreV2Portfolio, CoreV2Response,
}
use factory_demo.Upstream.Items.{core_parse_money, core_parse_position}
use factory_demo.Upstream.Items.Positions.{
  core_parse_position-Accepted, core_parse_position_accepts, core_parse_money-AcceptedMoney,
  core_parse_money_accepts,
}
use factory_demo.Upstream.Mapping.Inversion.{
  v1_position, v2_position, map_core_v2_portfolio-FromV2, FromV1-map_core_v1_account,
  map_core_v2_inversion, map_core_v1_intro,
}
use factory_demo.Upstream.Mapping.{
  map_core_v1_account, map_core_v1, is_core_category, cash_of, map_core_v2_portfolio, client_id,
  map_core_v2,
}

abbrev pub position_to_v1 : CoreV2Asset → CoreV1Position
position_to_v1 a = record { symbol = a.ticker; quantity = a.units }

abbrev pub money_to_v1 : Option CoreV2Money → Option CoreV1Money
money_to_v1 none = none
money_to_v1 (some m) = some (record { amount_minor = m.minor_units; currency = m.currency_code })

abbrev pub positions_to_v1 : Option (List CoreV2Asset) → Option (List CoreV1Position)
positions_to_v1 none = none
positions_to_v1 (some assets) = some (map position_to_v1 assets)

abbrev pub account_to_v1 : CoreV2Portfolio → CoreV1Account
account_to_v1 item = record {
  account_id = item.id;
  account_type = item.category;
  cash_balance = money_to_v1 (cash_of item.balances);
  positions = positions_to_v1 item.assets;
}

abbrev pub accounts_to_v1 : Option (List CoreV2Portfolio) → Option (List CoreV1Account)
accounts_to_v1 none = none
accounts_to_v1 (some items) = some (map account_to_v1 items)

-- The same payload in the shape of v1.
abbrev pub response_to_v1 : CoreV2Response → CoreV1Response
response_to_v1 payload = record {
  customer_id = client_id payload.client;
  accounts = accounts_to_v1 payload.portfolios;
}

lenient_position :
    (symbol quantity : Option Text) (p : Position)
    → core_parse_position symbol quantity true ≡ ok p
    → core_parse_position symbol quantity false ≡ ok p
lenient_position symbol quantity p e =
    let a = core_parse_position-Accepted symbol quantity true p e in
    ap (λ s. core_parse_position s quantity false) a.has_symbol
    ∙ ap (λ q. core_parse_position (some p.symbol) q false) a.has_quantity
    ∙ core_parse_position_accepts a.raw false p a.symbol-ne-nil (λ h. absurd (false≢true h))
        a.parsed

lenient_money :
    (u : Text → Text) (minor : Option ℤ) (currency : Option Text) (m : Money)
    → core_parse_money u minor currency true ≡ ok m
    → core_parse_money u minor currency false ≡ ok m
lenient_money u minor currency m e =
    let a = core_parse_money-AcceptedMoney u minor currency true m e in
    ap (λ s. core_parse_money u s currency false) a.has_minor
    ∙ ap (λ c. core_parse_money u (some m.minor) c false) a.has_currency
    ∙ core_parse_money_accepts u a.code false m (λ h. absurd (false≢true h)) a.made

category-ne-nil : (c : Text) → is_core_category c ≡ true → c ≢ []
unfolding is_core_category text_eq
category-ne-nil [] h = ground arith
category-ne-nil (x ∷ c) h = ground arith

pub account_to_v1_lem :
    (u : Text → Text) (item : CoreV2Portfolio) (a : Account)
    → map_core_v2_portfolio u item ≡ ok a
    → map_core_v1_account u (account_to_v1 item) ≡ ok a
account_to_v1_lem u item a e =
    let f = map_core_v2_portfolio-FromV2 u item a e in
    FromV1-map_core_v1_account u (account_to_v1 item) a (record {
      balance = record { amount_minor = f.money.minor_units; currency = f.money.currency_code };
      listed = map position_to_v1 f.listed;
      id = f.id;
      id-ne-nil = f.id-ne-nil;
      type = f.category;
      type-ne-nil = category-ne-nil a.type f.is_known;
      has_balance = ap money_to_v1 f.has_money;
      cash = lenient_money u f.money.minor_units f.money.currency_code a.cash f.cash;
      has_positions = ap positions_to_v1 f.has_assets;
      positions =
          collect-map v2_position v1_position position_to_v1
            (λ x y h. lenient_position x.ticker x.units y h) f.listed a.positions f.positions;
    })

-- What the v2 contract accepts, the v1 contract accepts in its own shape, as the same accounts.
pub map_core_v1-map_core_v2 :
    (upper_runes : Text → Text) (payload : CoreV2Response) (customer_id : Text)
    (accounts : List Account)
    → map_core_v2 upper_runes payload customer_id ≡ ok accounts
    → map_core_v1 upper_runes (response_to_v1 payload) customer_id ≡ ok accounts
map_core_v1-map_core_v2 u payload customer_id accounts e =
    let (same, (items, listed, mapped)) = map_core_v2_inversion u payload customer_id accounts e in
    map_core_v1_intro u (response_to_v1 payload) customer_id (map account_to_v1 items) accounts same
      (ap accounts_to_v1 listed)
      (collect-map (map_core_v2_portfolio u) (map_core_v1_account u) account_to_v1
        (account_to_v1_lem u) items accounts mapped)
