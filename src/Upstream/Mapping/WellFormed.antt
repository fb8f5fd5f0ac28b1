-- ===== src/Upstream/Mapping/WellFormed.antt =====
-- The accounts that mapCoreV1 and mapCoreV2 return.
use factory_demo.Base.{
  ℕ, ◌≤◌, List, [], ◌∷◌, ◌≡◌, ◌≢◌, refl, ap, ◌∙◌, ok, some, true, arith, All, length, collect-All,
}
use factory_demo.Base.Int.{pos, max_int64}
use factory_demo.Text.{Text, trim_space, to_upper}
use factory_demo.Text.Trim.{trim_space_visible}
use factory_demo.Domain.Money.Sums.{new_money-eq-ok_iff}
use factory_demo.Domain.Values.{Position, Account}
use factory_demo.Upstream.Wire.{
  CoreV1Position, CoreV1Account, CoreV1Response, CoreV2Asset, CoreV2Portfolio, CoreV2Response,
}
use factory_demo.Upstream.Items.{is_core_currency}
use factory_demo.Upstream.Items.Positions.{
  core_parse_position-Accepted, core_parse_money-AcceptedMoney,
}
use factory_demo.Upstream.Items.Units.{valid_quantity}
use factory_demo.Upstream.Mapping.{
  is_core_category, client_id, map_core_v1, map_core_v2, map_core_v1_account, map_core_v2_portfolio,
}
use factory_demo.Upstream.Mapping.Inversion.{
  v1_position, v2_position, map_core_v1_account-FromV1, map_core_v2_portfolio-FromV2,
  map_core_v1_inversion, map_core_v2_inversion,
}
use factory_demo.Upstream.Mapping.Versions.{account_to_v1, account_to_v1_lem}

-- An account that the service can work with.
pub record IsWellFormed (a : Account) : Type 0 where
  pub id : a.id ≢ []
  pub type : a.type ≢ []
  pub currency : length a.cash.currency ≡ 3
  pub symbols : All (λ p. p.symbol ≢ []) a.positions

-- An account of the v2 contract: a known category, a currency of three capitals, and quantities
-- that are not negative and did not wrap around.
pub record IsStrict (a : Account) : Type 0 where
  pub well_formed : IsWellFormed a
  pub category : is_core_category a.type ≡ true
  pub currency : is_core_currency a.cash.currency ≡ true
  pub quantities :
      All
        (λ p. (n : ℕ) × (n ≤ max_int64) × (p.quantity ≡ record { millionths = pos n }))
        a.positions

v1_position-symbol : (x : CoreV1Position) (y : Position) → v1_position x ≡ ok y → y.symbol ≢ []
v1_position-symbol x y e = (core_parse_position-Accepted x.symbol x.quantity _ y e).symbol-ne-nil

module _ (u : Text → Text) where
  account-IsWellFormed :
      (item : CoreV1Account) (a : Account) → map_core_v1_account u item ≡ ok a → IsWellFormed a
  account-IsWellFormed item a e =
      let f = map_core_v1_account-FromV1 u item a e in
      let m =
        core_parse_money-AcceptedMoney u f.balance.amount_minor f.balance.currency _ a.cash
          f.cash in
      record {
        id = f.id-ne-nil;
        type = f.type-ne-nil;
        currency = ((new_money-eq-ok_iff u a.cash.minor m.code a.cash).0 m.made).2;
        symbols =
            (collect-All (λ (p : Position). p.symbol ≢ []) v1_position v1_position-symbol f.listed
              a.positions f.positions).0;
      }

  -- A v1 payload that is accepted is the customer's, and each of its accounts, in number and order,
  -- became an account with an identifier, a type, a currency of three bytes and symbols.
  pub map_core_v1-IsWellFormed :
      (payload : CoreV1Response) (customer_id : Text) (accounts : List Account)
      → map_core_v1 u payload customer_id ≡ ok accounts
      → (payload.customer_id ≡ some customer_id)
        × ((items : List CoreV1Account) × (payload.accounts ≡ some items)
            × All IsWellFormed accounts
            × (length accounts ≡ length items))
  map_core_v1-IsWellFormed payload customer_id accounts e =
      let (same, (items, listed, mapped)) =
        map_core_v1_inversion u payload customer_id accounts e in
      let (every, size) =
        collect-All IsWellFormed (map_core_v1_account u) account-IsWellFormed items accounts
          mapped in
      (same, (items, listed, every, size))

  capitals-kept : (c : Text) → is_core_currency c ≡ true → to_upper u (trim_space c) ≡ c
  unfolding is_core_currency
  capitals-kept [] h = absurd (ground arith)
  capitals-kept (_ ∷ []) h = absurd (ground arith)
  capitals-kept (_ ∷ _ ∷ []) h = absurd (ground arith)
  capitals-kept (x ∷ y ∷ z ∷ []) h =
      ap (to_upper u) (trim_space_visible (x ∷ y ∷ z ∷ []) (ground arith))
      ∙ (unfold to_upper in ground arith)
  capitals-kept (_ ∷ _ ∷ _ ∷ _ ∷ _) h = absurd (ground arith)

  v2_position-exact :
      (x : CoreV2Asset) (y : Position)
      → v2_position x ≡ ok y
      → (n : ℕ) × (n ≤ max_int64) × (y.quantity ≡ record { millionths = pos n })
  v2_position-exact x y e =
      let a = core_parse_position-Accepted x.ticker x.units true y e in
      let (n, _, fits, q) = valid_quantity a.raw y.quantity (a.valid refl) a.parsed in (n, fits, q)

  portfolio-IsStrict :
      (item : CoreV2Portfolio) (a : Account) → map_core_v2_portfolio u item ≡ ok a → IsStrict a
  portfolio-IsStrict item a e =
      let f = map_core_v2_portfolio-FromV2 u item a e in
      let m =
        core_parse_money-AcceptedMoney u f.money.minor_units f.money.currency_code true a.cash
          f.cash in
      let code = ((new_money-eq-ok_iff u a.cash.minor m.code a.cash).0 m.made).1 in
      record {
        well_formed = account-IsWellFormed (account_to_v1 item) a (account_to_v1_lem u item a e);
        category = f.is_known;
        currency = ap is_core_currency (code ∙ capitals-kept m.code (m.valid refl)) ∙ m.valid refl;
        quantities =
            (collect-All
              (λ (p : Position).
                (n : ℕ) × (n ≤ max_int64) × (p.quantity ≡ record { millionths = pos n }))
              v2_position v2_position-exact f.listed a.positions f.positions).0;
      }

  -- A v2 payload that is accepted is the customer's, and each of its portfolios became an account
  -- that also keeps to the strict grammar.
  pub map_core_v2-IsStrict :
      (payload : CoreV2Response) (customer_id : Text) (accounts : List Account)
      → map_core_v2 u payload customer_id ≡ ok accounts
      → (client_id payload.client ≡ some customer_id)
        × ((items : List CoreV2Portfolio) × (payload.portfolios ≡ some items)
            × All IsStrict accounts
            × (length accounts ≡ length items))
  map_core_v2-IsStrict payload customer_id accounts e =
      let (same, (items, listed, mapped)) =
        map_core_v2_inversion u payload customer_id accounts e in
      let (every, size) =
        collect-All IsStrict (map_core_v2_portfolio u) portfolio-IsStrict items accounts mapped in
      (same, (items, listed, every, size))
