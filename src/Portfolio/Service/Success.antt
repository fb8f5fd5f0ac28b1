-- ===== src/Portfolio/Service/Success.antt =====
-- The conditions under which the loops of Service.Get end without an error.
use factory_demo.Base.Int.{add64}
use factory_demo.Base.{
  ◌⊎◌, inl, inr, List, [], ◌∷◌, ◌++◌, ◌≡◌, ◌≢◌, refl, sym, ◌∙◌, some, ok, arith, All,
}
use factory_demo.Text.{Text}
use factory_demo.Text.Order.{text_eq_iff}
use factory_demo.Text.Ends.{is_empty-false}
use factory_demo.Dict.{Dict, lookup}
use factory_demo.Domain.Money.{Money, add}
use factory_demo.Domain.Quantity.{market_value}
use factory_demo.Domain.Values.{Position, Account, Price, Portfolio}
use factory_demo.Portfolio.Service.{
  Progress, value_position, value_positions, start_account, finish_account, total_with, add_account,
  add_accounts,
}
use factory_demo.Portfolio.Service.Holdings.{advance}

-- A position has a price, at which its value is a whole number of minor units of a currency.
pub record CanPrice (prices : Dict Price) (code : Text) (p : Position) : Type 0 where
  pub price : Price
  pub value : Money
  pub found : lookup p.symbol prices ≡ some price
  pub valued : market_value p.quantity price.value ≡ ok value
  pub same_currency : value.currency ≡ code

-- The account and all its positions are of one currency.
pub record CanValue (prices : Dict Price) (code : Text) (a : Account) : Type 0 where
  pub cash : a.cash.currency ≡ code
  pub positions : All (CanPrice prices code) a.positions

add_same :
    (m v : Money)
    → v.currency ≡ m.currency
    → (t : Money) × (add m v ≡ ok t) × (t.currency ≡ m.currency)
unfolding add
add_same m v h = (
  record { minor = add64 m.minor v.minor; currency = m.currency },
  ground (arith, text_eq_iff m.currency v.currency),
  refl,
)

value_position_complete :
    (prices : Dict Price) (id code : Text) (p : Position) (s : Progress)
    → s.account_value.currency ≡ code
    → CanPrice prices code p
    → (s' : Progress) × (value_position prices id p s ≡ ok s') × (s'.account_value.currency ≡ code)
unfolding value_position
value_position_complete prices id code p s h c =
    let (t, added, same) = add_same s.account_value c.value (c.same_currency ∙ sym h) in
    (advance s c.price p c.value t, ground (arith, c.found, c.valued, added), same ∙ h)

value_positions_complete :
    (prices : Dict Price) (id code : Text) (ps : List Position) (s : Progress)
    → s.account_value.currency ≡ code
    → All (CanPrice prices code) ps
    → (s' : Progress) × (value_positions prices id ps s ≡ ok s')
      × (s'.account_value.currency ≡ code)
unfolding value_positions
value_positions_complete prices id code [] s h c = (s, refl, h)
value_positions_complete prices id code (p ∷ ps) s h c =
    let (s1, one, same) = value_position_complete prices id code p s h c.0 in
    let (s2, all, last) = value_positions_complete prices id code ps s1 same c.1 in
    (s2, ground arith, last)

-- The total so far is of the accounts' currency, or none was added yet.
abbrev pub IsOpen : Text → Text → Type 0
IsOpen code total = (total ≡ []) ⊎ (total ≡ code)

total_with_complete :
    (m v : Money) (code : Text)
    → code ≢ []
    → IsOpen code m.currency
    → v.currency ≡ code
    → (t : Money) × (total_with m v ≡ ok t) × (t.currency ≡ code)
unfolding total_with
total_with_complete m v code some_code (inl first) same = (v, ground arith, same)
total_with_complete m v code some_code (inr next) same =
    let (t, added, kept) = add_same m v (same ∙ sym next) in
    (t, ground (arith, is_empty-false m.currency (λ e. some_code (sym next ∙ e))), kept ∙ next)

add_account_complete :
    (prices : Dict Price) (code : Text) (a : Account) (r : Portfolio)
    → code ≢ []
    → IsOpen code r.total_market_value.currency
    → CanValue prices code a
    → (r' : Portfolio) × (add_account prices a r ≡ ok r') × (r'.total_market_value.currency ≡ code)
unfolding add_account
add_account_complete prices code a r some_code open_total c =
    let (s, valued, same) =
      value_positions_complete prices a.id code a.positions (start_account a r.as_of) c.cash
        c.positions in
    let (t, summed, kept) =
      total_with_complete r.total_market_value s.account_value code some_code open_total same in
    (
      record r {
        as_of = s.as_of;
        total_market_value = t;
        accounts = r.accounts ++ finish_account a s ∷ [];
      },
      ground (arith, valued, summed),
      kept,
    )

pub add_accounts_complete :
    (prices : Dict Price) (code : Text) (accounts : List Account) (r : Portfolio)
    → code ≢ []
    → IsOpen code r.total_market_value.currency
    → All (CanValue prices code) accounts
    → (r' : Portfolio) × (add_accounts prices accounts r ≡ ok r')
unfolding add_accounts
add_accounts_complete prices code [] r some_code open_total c = (r, refl)
add_accounts_complete prices code (a ∷ rest) r some_code open_total c =
    let (r1, one, same) = add_account_complete prices code a r some_code open_total c.0 in
    let (r2, all) = add_accounts_complete prices code rest r1 some_code (inr same) c.1 in
    (r2, ground (arith, one, all))
