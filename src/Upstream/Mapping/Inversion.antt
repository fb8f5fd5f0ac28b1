-- ===== src/Upstream/Mapping/Inversion.antt =====
-- The parts of a successful mapping of one account.
use mathlib.Core.Path.{subst}
use factory_demo.Base.{
  List, [], ◌≡◌, ◌≢◌, ◌↔◌, ap, ◌∙◌, ◌∷◌, Result, ok, err, Option, some, none, true, false, arith,
  if◌then◌else◌, Bool-cases, inl, inr, >>=-eq-ok, collect,
}
use factory_demo.Text.{Text}
use factory_demo.Failure.{Failure, fixed, Fixed}
use factory_demo.Domain.Values.{Position, Account}
use factory_demo.Upstream.Wire.{
  CoreV1Money, CoreV1Position, CoreV1Account, CoreV1Response, CoreV2Money, CoreV2Asset,
  CoreV2Portfolio, CoreV2Response,
}
use factory_demo.Upstream.Items.{core_parse_money, core_parse_position}
use factory_demo.Text.Order.{text_eq_iff}
use factory_demo.Text.Ends.{is_empty-false}
use factory_demo.Upstream.Mapping.{
  required, nonempty, map_core_v1_account, is_core_category, cash_of, map_core_v2_portfolio,
  matches_id, client_id, map_core_v1, map_core_v2,
}

pub nonempty-eq-ok :
    (f : Fixed) (o : Option Text) (t : Text) → nonempty f o ≡ ok t → (o ≡ some t) × (t ≢ [])
nonempty-eq-ok f none t e = absurd (ground arith)
nonempty-eq-ok f (some []) t e = absurd (ground arith)
nonempty-eq-ok f (some (c ∷ s)) t e = ground arith

nonempty-some : (f : Fixed) (t : Text) → t ≢ [] → nonempty f (some t) ≡ ok t
nonempty-some f t h = ground (arith, is_empty-false t h)

pub required-eq-ok {ℓ} :
    {A : Type ℓ} (f : Fixed) (o : Option A) (a : A) → required f o ≡ ok a → o ≡ some a
required-eq-ok f none a e = cc
required-eq-ok f (some b) a e = cc

abbrev pub v1_position : CoreV1Position → Result Failure Position
v1_position p = core_parse_position p.symbol p.quantity false

abbrev pub v2_position : CoreV2Asset → Result Failure Position
v2_position a = core_parse_position a.ticker a.units true

known_category :
    (c t : Text)
    → ◌≡◌ {A = Result Failure Text}
        (if is_core_category c then ok c else err (fixed Fixed.category_invalid))
        (ok t)
    → (c ≡ t) × (is_core_category t ≡ true)
known_category c t e = ground arith

matches_id_iff : (o : Option Text) (id : Text) → (matches_id o id ≡ true) ↔ (o ≡ some id)
matches_id_iff none id = ground arith
matches_id_iff (some t) id = ground (arith, text_eq_iff t id)

module _ (upper_runes : Text → Text) where
  -- An account of the v1 contract that was mapped to `a`.
  pub record FromV1 (item : CoreV1Account) (a : Account) : Type 0 where
    pub balance : CoreV1Money
    pub listed : List CoreV1Position
    pub id : item.account_id ≡ some a.id
    pub id-ne-nil : a.id ≢ []
    pub type : item.account_type ≡ some a.type
    pub type-ne-nil : a.type ≢ []
    pub has_balance : item.cash_balance ≡ some balance
    pub cash : core_parse_money upper_runes balance.amount_minor balance.currency false ≡ ok a.cash
    pub has_positions : item.positions ≡ some listed
    pub positions : collect v1_position listed ≡ ok a.positions

  pub map_core_v1_account-FromV1 :
      (item : CoreV1Account) (a : Account)
      → map_core_v1_account upper_runes item ≡ ok a
      → FromV1 item a
  unfolding map_core_v1_account
  map_core_v1_account-FromV1 item a e =
      let (id, e1, r1) = >>=-eq-ok (nonempty Fixed.account_invalid item.account_id) _ e in
      let (type, e2, r2) = >>=-eq-ok (nonempty Fixed.account_invalid item.account_type) _ r1 in
      let (balance, e3, r3) = >>=-eq-ok (required Fixed.cash_invalid item.cash_balance) _ r2 in
      let (cash, e4, r4) =
        >>=-eq-ok (core_parse_money upper_runes balance.amount_minor balance.currency false) _ r3 in
      let (listed, e5, r5) = >>=-eq-ok (required Fixed.positions_invalid item.positions) _ r4 in
      let (positions, e6, r6) = >>=-eq-ok (collect v1_position listed) _ r5 in
      let same : record { id = id; type = type; cash = cash; positions = positions } ≡ a = cc r6 in
      subst (FromV1 item) same (record {
        balance = balance;
        listed = listed;
        id = (nonempty-eq-ok _ _ id e1).0;
        id-ne-nil = (nonempty-eq-ok _ _ id e1).1;
        type = (nonempty-eq-ok _ _ type e2).0;
        type-ne-nil = (nonempty-eq-ok _ _ type e2).1;
        has_balance = required-eq-ok _ _ balance e3;
        cash = e4;
        has_positions = required-eq-ok _ _ listed e5;
        positions = e6;
      })

  pub FromV1-map_core_v1_account :
      (item : CoreV1Account) (a : Account)
      → FromV1 item a
      → map_core_v1_account upper_runes item ≡ ok a
  unfolding map_core_v1_account
  FromV1-map_core_v1_account item a f = rw (
    f.id,
    nonempty-some Fixed.account_invalid a.id f.id-ne-nil,
    f.type,
    nonempty-some Fixed.account_invalid a.type f.type-ne-nil,
    f.has_balance,
    f.cash,
    f.has_positions,
    f.positions,
  )

  -- A portfolio of the v2 contract that was mapped to `a`.
  pub record FromV2 (item : CoreV2Portfolio) (a : Account) : Type 0 where
    pub money : CoreV2Money
    pub listed : List CoreV2Asset
    pub id : item.id ≡ some a.id
    pub id-ne-nil : a.id ≢ []
    pub category : item.category ≡ some a.type
    pub is_known : is_core_category a.type ≡ true
    pub has_money : cash_of item.balances ≡ some money
    pub cash : core_parse_money upper_runes money.minor_units money.currency_code true ≡ ok a.cash
    pub has_assets : item.assets ≡ some listed
    pub positions : collect v2_position listed ≡ ok a.positions

  pub map_core_v2_portfolio-FromV2 :
      (item : CoreV2Portfolio) (a : Account)
      → map_core_v2_portfolio upper_runes item ≡ ok a
      → FromV2 item a
  unfolding map_core_v2_portfolio
  map_core_v2_portfolio-FromV2 item a e =
      let (id, e1, r1) = >>=-eq-ok (nonempty Fixed.account_invalid item.id) _ e in
      let (category, e2, r2) = >>=-eq-ok (required Fixed.account_invalid item.category) _ r1 in
      let (type, e3, r3) = >>=-eq-ok _ _ r2 in
      let (money, e4, r4) = >>=-eq-ok (required Fixed.cash_invalid (cash_of item.balances)) _ r3 in
      let (cash, e5, r5) =
        >>=-eq-ok (core_parse_money upper_runes money.minor_units money.currency_code true) _ r4 in
      let (listed, e6, r6) = >>=-eq-ok (required Fixed.assets_invalid item.assets) _ r5 in
      let (positions, e7, r7) = >>=-eq-ok (collect v2_position listed) _ r6 in
      let same : record { id = id; type = type; cash = cash; positions = positions } ≡ a = cc r7 in
      let (named, known) = known_category category type e3 in
      subst (FromV2 item) same (record {
        money = money;
        listed = listed;
        id = (nonempty-eq-ok _ _ id e1).0;
        id-ne-nil = (nonempty-eq-ok _ _ id e1).1;
        category = required-eq-ok _ _ category e2 ∙ ap some named;
        is_known = known;
        has_money = required-eq-ok _ _ money e4;
        cash = e5;
        has_assets = required-eq-ok _ _ listed e6;
        positions = e7;
      })

  -- The identity and the listed accounts of a payload that was mapped.
  pub map_core_v1_inversion :
      (payload : CoreV1Response) (id : Text) (accounts : List Account)
      → map_core_v1 upper_runes payload id ≡ ok accounts
      → (payload.customer_id ≡ some id)
        × ((items : List CoreV1Account) × (payload.accounts ≡ some items)
            × (collect (map_core_v1_account upper_runes) items ≡ ok accounts))
  unfolding map_core_v1
  map_core_v1_inversion payload id accounts e =
      elim (Bool-cases (matches_id payload.customer_id id)) [
        | inr other ↦ absurd (ground arith)
        | inl same ↦
            let (items, listed, mapped) =
              >>=-eq-ok (required Fixed.contract_invalid payload.accounts)
                (collect (map_core_v1_account upper_runes)) (ground (arith, same, e)) in
            (
              (matches_id_iff payload.customer_id id).0 same,
              (items, required-eq-ok _ _ items listed, mapped),
            )
      ]

  pub map_core_v1_intro :
      (payload : CoreV1Response) (id : Text) (items : List CoreV1Account) (accounts : List Account)
      → payload.customer_id ≡ some id
      → payload.accounts ≡ some items
      → collect (map_core_v1_account upper_runes) items ≡ ok accounts
      → map_core_v1 upper_runes payload id ≡ ok accounts
  unfolding map_core_v1
  map_core_v1_intro payload id items accounts same listed mapped =
      ground (arith, (matches_id_iff payload.customer_id id).1 same, listed, mapped)

  pub map_core_v2_inversion :
      (payload : CoreV2Response) (id : Text) (accounts : List Account)
      → map_core_v2 upper_runes payload id ≡ ok accounts
      → (client_id payload.client ≡ some id)
        × ((items : List CoreV2Portfolio) × (payload.portfolios ≡ some items)
            × (collect (map_core_v2_portfolio upper_runes) items ≡ ok accounts))
  unfolding map_core_v2
  map_core_v2_inversion payload id accounts e =
      elim (Bool-cases (matches_id (client_id payload.client) id)) [
        | inr other ↦ absurd (ground arith)
        | inl same ↦
            let (items, listed, mapped) =
              >>=-eq-ok (required Fixed.contract_invalid payload.portfolios)
                (collect (map_core_v2_portfolio upper_runes)) (ground (arith, same, e)) in
            (
              (matches_id_iff (client_id payload.client) id).0 same,
              (items, required-eq-ok _ _ items listed, mapped),
            )
      ]
