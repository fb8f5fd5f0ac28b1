-- ===== src/Upstream/Decoding/RoundTrip.antt =====
-- The documents of Core payloads, decoded.
use factory_demo.Base.{List, [], ◌∷◌, ◌≡◌, refl, Option, none, some, All}
use factory_demo.Base.Int.{ℤ, pos, Fits64}
use factory_demo.Text.{Text, text_eq}
use factory_demo.Json.{Value, Members}
use factory_demo.Json.Integers.{parse_int-format_int}
use factory_demo.Json.Structs.{
  is_field, fold, read_int, read_pointer, read_slice, read_elements, read_struct, read_members,
}
use factory_demo.Upstream.Wire.{CoreV1Response, CoreV2Response}
use factory_demo.Upstream.Decoding.{
  text_pointer, set_v1_money, no_v1_money, set_v1_position, no_v1_position, set_v1_account,
  no_v1_account, set_v1_response, no_v1_response, set_v2_money, no_v2_money, set_v2_balances,
  no_v2_balances, set_v2_asset, no_v2_asset, set_v2_portfolio, no_v2_portfolio, set_v2_client,
  no_v2_client, set_v2_response, no_v2_response,
}
use factory_demo.Upstream.Decoding.Documents.{
  text_value, int_value, struct_value, values, list_value, IfSome, v1_money, v1_position,
  v1_account, v1_document, v2_money, v2_balances, v2_asset, v2_portfolio, v2_client, v2_document,
  IsPlainMoney1, IsPlainPosition1, IsPlainAccount1, IsPlain1, IsPlainMoney2, IsPlainBalances2,
  IsPlainAsset2, IsPlainPortfolio2, IsPlainClient2, IsPlain2,
}

read_text_value : (o : Option Text) → text_pointer (text_value o) none ≡ some o
read_text_value none = refl
read_text_value (some t) = refl

read_int_value :
    (o : Option ℤ) → IfSome Fits64 o → read_pointer (pos 0) read_int (int_value o) none ≡ some o
unfolding read_int int_value
read_int_value none h = refl
read_int_value (some n) h = rw (parse_int-format_int n h) refl

module _ {A : Type 0} (set : Text → Value → A → Option A) (fresh : A) (render : A → Members)
    (P : A → Type 0) where
  abbrev Decodes : Type 0
  Decodes = (a : A) → P a → read_members set (render a) fresh ≡ some a

  read_struct_value :
      Decodes
      → (o : Option A) → IfSome P o
      → read_pointer fresh (read_struct set) (struct_value render o) none ≡ some o
  read_struct_value k none h = refl
  read_struct_value k (some a) h = rw (k a h) refl

  read_values :
      Decodes
      → (xs : List A) → All P xs
      → read_elements fresh (read_struct set) (values render xs) [] ≡ some xs
  read_values k [] h = refl
  read_values k (a ∷ xs) h = rw (k a h.0) (rw (read_values k xs h.1) refl)

  read_list_value :
      Decodes
      → (o : Option (List A)) → IfSome (All P) o
      → read_slice fresh (read_struct set) (list_value render o) none ≡ some o
  read_list_value k none h = refl
  read_list_value k (some xs) h = rw (read_values k xs h) refl

v1_money-Decodes : Decodes set_v1_money no_v1_money v1_money IsPlainMoney1
unfolding set_v1_money v1_money is_field text_eq fold
v1_money-Decodes m h = rw (read_int_value m.amount_minor h.0) (rw (read_text_value m.currency) refl)

v1_position-Decodes : Decodes set_v1_position no_v1_position v1_position IsPlainPosition1
unfolding set_v1_position v1_position is_field text_eq fold
v1_position-Decodes p h = rw (read_text_value p.symbol) (rw (read_text_value p.quantity) refl)

v1_account-Decodes : Decodes set_v1_account no_v1_account v1_account IsPlainAccount1
unfolding set_v1_account v1_account is_field text_eq fold
v1_account-Decodes a h = rw (read_text_value a.account_id) (
    rw (read_text_value a.account_type) (
      rw
        (read_struct_value set_v1_money no_v1_money v1_money IsPlainMoney1 v1_money-Decodes
          a.cash_balance h.2)
        (rw
          (read_list_value set_v1_position no_v1_position v1_position IsPlainPosition1
            v1_position-Decodes a.positions h.3)
          refl)))

pub v1_document-Decodes :
    (r : CoreV1Response)
    → IsPlain1 r
    → read_struct set_v1_response (v1_document r) no_v1_response ≡ some r
unfolding set_v1_response v1_document is_field text_eq fold
v1_document-Decodes r h = rw (read_text_value r.customer_id) (
    rw
      (read_list_value set_v1_account no_v1_account v1_account IsPlainAccount1 v1_account-Decodes
        r.accounts h.1)
      refl)

v2_money-Decodes : Decodes set_v2_money no_v2_money v2_money IsPlainMoney2
unfolding set_v2_money v2_money is_field text_eq fold
v2_money-Decodes m h =
    rw (read_int_value m.minor_units h.0) (rw (read_text_value m.currency_code) refl)

v2_balances-Decodes : Decodes set_v2_balances no_v2_balances v2_balances IsPlainBalances2
unfolding set_v2_balances v2_balances is_field text_eq fold
v2_balances-Decodes b h =
    rw (read_struct_value set_v2_money no_v2_money v2_money IsPlainMoney2 v2_money-Decodes b.cash h)
      refl

v2_asset-Decodes : Decodes set_v2_asset no_v2_asset v2_asset IsPlainAsset2
unfolding set_v2_asset v2_asset is_field text_eq fold
v2_asset-Decodes a h = rw (read_text_value a.ticker) (rw (read_text_value a.units) refl)

v2_portfolio-Decodes : Decodes set_v2_portfolio no_v2_portfolio v2_portfolio IsPlainPortfolio2
unfolding set_v2_portfolio v2_portfolio is_field text_eq fold
v2_portfolio-Decodes p h = rw (read_text_value p.id) (
    rw (read_text_value p.category) (
      rw
        (read_struct_value set_v2_balances no_v2_balances v2_balances IsPlainBalances2
          v2_balances-Decodes p.balances h.2)
        (rw
          (read_list_value set_v2_asset no_v2_asset v2_asset IsPlainAsset2 v2_asset-Decodes p.assets
            h.3)
          refl)))

v2_client-Decodes : Decodes set_v2_client no_v2_client v2_client IsPlainClient2
unfolding set_v2_client v2_client is_field text_eq fold
v2_client-Decodes c h = rw (read_text_value c.id) refl

pub v2_document-Decodes :
    (r : CoreV2Response)
    → IsPlain2 r
    → read_struct set_v2_response (v2_document r) no_v2_response ≡ some r
unfolding set_v2_response v2_document is_field text_eq fold
v2_document-Decodes r h =
    rw
      (read_struct_value set_v2_client no_v2_client v2_client IsPlainClient2 v2_client-Decodes
        r.client h.0)
      (rw
        (read_list_value set_v2_portfolio no_v2_portfolio v2_portfolio IsPlainPortfolio2
          v2_portfolio-Decodes r.portfolios h.1)
        refl)
