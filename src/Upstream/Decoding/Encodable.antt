-- ===== src/Upstream/Decoding/Encodable.antt =====
-- The documents of Core payloads can be encoded.
use factory_demo.Base.{ℕ, suc, ◌+◌, ◌≤◌, List, [], ◌∷◌, Option, none, some, All, arith}
use factory_demo.Base.Int.{ℤ}
use factory_demo.Text.{Text}
use factory_demo.Json.{Members}
use factory_demo.Json.Quoting.{IsAscii}
use factory_demo.Json.Scanner.{max_depth}
use factory_demo.Json.Integers.{is_number-format_int}
use factory_demo.Json.RoundTrip.{IsEncodable, AreEncodable, HasEncodable}
use factory_demo.Upstream.Wire.{CoreV1Response, CoreV2Response}
use factory_demo.Upstream.Decoding.Documents.{
  text_value, int_value, struct_value, values, list_value, IfSome, v1_money, v1_position,
  v1_account, v1_document, v2_money, v2_balances, v2_asset, v2_portfolio, v2_client, v2_document,
  IsPlainMoney1, IsPlainPosition1, IsPlainAccount1, IsPlain1, IsPlainMoney2, IsPlainBalances2,
  IsPlainAsset2, IsPlainPortfolio2, IsPlainClient2, IsPlain2,
}

text_value-IsEncodable : (d : ℕ) (o : Option Text) → IfSome IsAscii o → IsEncodable d (text_value o)
unfolding IsEncodable
text_value-IsEncodable d none h = tt
text_value-IsEncodable d (some t) h = h

int_value-IsEncodable : (d : ℕ) (o : Option ℤ) → IsEncodable d (int_value o)
unfolding IsEncodable int_value
int_value-IsEncodable d none = tt
int_value-IsEncodable d (some n) = is_number-format_int n

module _ {A : Type 0} (render : A → Members) (P : A → Type 0) (levels : ℕ) where
  -- The members can stand where so many further levels may be opened.
  abbrev Encodable : Type 0
  Encodable = (d : ℕ) (a : A) → d + levels ≤ max_depth → P a → HasEncodable d (render a)

  encodable_struct :
      Encodable
      → (d : ℕ) (o : Option A) → d + suc levels ≤ max_depth
      → IfSome P o
      → IsEncodable d (struct_value render o)
  unfolding IsEncodable
  encodable_struct k d none h p = tt
  encodable_struct k d (some a) h p = (omega arith, k (suc d) a (omega arith) p)

  encodable_values :
      Encodable
      → (d : ℕ) (xs : List A) → d + suc levels ≤ max_depth
      → All P xs
      → AreEncodable d (values render xs)
  unfolding IsEncodable
  encodable_values k d [] h p = tt
  encodable_values k d (a ∷ xs) h p =
      ((omega arith, k (suc d) a (omega arith) p.0), encodable_values k d xs h p.1)

  encodable_list :
      Encodable
      → (d : ℕ) (o : Option (List A)) → d + suc (suc levels) ≤ max_depth
      → IfSome (All P) o
      → IsEncodable d (list_value render o)
  unfolding IsEncodable
  encodable_list k d none h p = tt
  encodable_list k d (some xs) h p = (omega arith, encodable_values k (suc d) xs (omega arith) p)

v1_money-Encodable : Encodable v1_money IsPlainMoney1 0
unfolding IsEncodable v1_money
v1_money-Encodable d m h p = (
  ground arith,
  int_value-IsEncodable d m.amount_minor,
  (ground arith, text_value-IsEncodable d m.currency p.1, tt),
)

v1_position-Encodable : Encodable v1_position IsPlainPosition1 0
unfolding IsEncodable v1_position
v1_position-Encodable d q h p = (
  ground arith,
  text_value-IsEncodable d q.symbol p.0,
  (ground arith, text_value-IsEncodable d q.quantity p.1, tt),
)

v1_account-Encodable : Encodable v1_account IsPlainAccount1 2
unfolding IsEncodable v1_account
v1_account-Encodable d a h p = (
  ground arith,
  text_value-IsEncodable d a.account_id p.0,
  (
    ground arith,
    text_value-IsEncodable d a.account_type p.1,
    (
      ground arith,
      encodable_struct v1_money IsPlainMoney1 0 v1_money-Encodable d a.cash_balance (omega arith)
          p.2,
      (
        ground arith,
        encodable_list v1_position IsPlainPosition1 0 v1_position-Encodable d a.positions
            (omega arith) p.3,
        tt,
      ),
    ),
  ),
)

pub v1_document-IsEncodable : (r : CoreV1Response) → IsPlain1 r → IsEncodable 0 (v1_document r)
unfolding IsEncodable v1_document
v1_document-IsEncodable r p = (
  omega arith,
  (
    ground arith,
    text_value-IsEncodable 1 r.customer_id p.0,
    (
      ground arith,
      encodable_list v1_account IsPlainAccount1 2 v1_account-Encodable 1 r.accounts (omega arith)
          p.1,
      tt,
    ),
  ),
)

v2_money-Encodable : Encodable v2_money IsPlainMoney2 0
unfolding IsEncodable v2_money
v2_money-Encodable d m h p = (
  ground arith,
  int_value-IsEncodable d m.minor_units,
  (ground arith, text_value-IsEncodable d m.currency_code p.1, tt),
)

v2_balances-Encodable : Encodable v2_balances IsPlainBalances2 1
unfolding IsEncodable v2_balances
v2_balances-Encodable d b h p = (
  ground arith,
  encodable_struct v2_money IsPlainMoney2 0 v2_money-Encodable d b.cash (omega arith) p,
  tt,
)

v2_asset-Encodable : Encodable v2_asset IsPlainAsset2 0
unfolding IsEncodable v2_asset
v2_asset-Encodable d a h p = (
  ground arith,
  text_value-IsEncodable d a.ticker p.0,
  (ground arith, text_value-IsEncodable d a.units p.1, tt),
)

v2_portfolio-Encodable : Encodable v2_portfolio IsPlainPortfolio2 2
unfolding IsEncodable v2_portfolio
v2_portfolio-Encodable d a h p = (
  ground arith,
  text_value-IsEncodable d a.id p.0,
  (
    ground arith,
    text_value-IsEncodable d a.category p.1,
    (
      ground arith,
      encodable_struct v2_balances IsPlainBalances2 1 v2_balances-Encodable d a.balances
          (omega arith) p.2,
      (
        ground arith,
        encodable_list v2_asset IsPlainAsset2 0 v2_asset-Encodable d a.assets (omega arith) p.3,
        tt,
      ),
    ),
  ),
)

v2_client-Encodable : Encodable v2_client IsPlainClient2 0
unfolding IsEncodable v2_client
v2_client-Encodable d c h p = (ground arith, text_value-IsEncodable d c.id p, tt)

pub v2_document-IsEncodable : (r : CoreV2Response) → IsPlain2 r → IsEncodable 0 (v2_document r)
unfolding IsEncodable v2_document
v2_document-IsEncodable r p = (
  omega arith,
  (
    ground arith,
    encodable_struct v2_client IsPlainClient2 0 v2_client-Encodable 1 r.client (omega arith) p.0,
    (
      ground arith,
      encodable_list v2_portfolio IsPlainPortfolio2 2 v2_portfolio-Encodable 1 r.portfolios
          (omega arith) p.1,
      tt,
    ),
  ),
)
