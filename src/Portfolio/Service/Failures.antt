-- ===== src/Portfolio/Service/Failures.antt =====
-- The errors of Service.Get and Service.Ready, and which calls they leave out.
use factory_demo.Base.{inl, inr, List, [], ◌∷◌, ◌≡◌, ◌↔◌, refl, ok, err, false, arith, Result-cases}
use factory_demo.Text.{Text}
use factory_demo.Failure.{Failure, Sentinel, error_is, fails_with}
use factory_demo.Dict.{Dict}
use factory_demo.Domain.Money.{Money, add}
use factory_demo.Domain.Quantity.{market_value}
use factory_demo.Domain.Values.{Position, Account, Price, Portfolio}
use factory_demo.Portfolio.Symbols.{unique_symbols}
use factory_demo.Portfolio.Service.{
  Ports, Progress, value_position, value_positions, add_account, add_accounts, get, ready,
  start_portfolio, start_account,
}

abbrev not_found : Sentinel
not_found = Sentinel.customer_not_found

add-fails_with : (m v : Money) → fails_with (add m v) not_found ≡ false
unfolding add error_is
add-fails_with m v = ground arith

value_position-fails_with :
    (prices : Dict Price) (id : Text) (p : Position) (s : Progress)
    → fails_with (value_position prices id p s) not_found ≡ false
unfolding value_position market_value add error_is
value_position-fails_with prices id p s = ground arith

value_positions-fails_with :
    (prices : Dict Price) (id : Text) (ps : List Position) (s : Progress)
    → fails_with (value_positions prices id ps s) not_found ≡ false
unfolding value_positions
value_positions-fails_with prices id [] s = refl
value_positions-fails_with prices id (p ∷ ps) s =
    elim (Result-cases (value_position prices id p s)) [
      | inl (s', done) ↦ ground (arith, value_positions-fails_with prices id ps s')
      | inr (e, failed) ↦ ground (arith, value_position-fails_with prices id p s)
    ]

add_account-fails_with :
    (prices : Dict Price) (a : Account) (r : Portfolio)
    → fails_with (add_account prices a r) not_found ≡ false
unfolding add_account add error_is
add_account-fails_with prices a r =
    ground (arith, value_positions-fails_with prices a.id a.positions (start_account a r.as_of))

add_accounts-fails_with :
    (prices : Dict Price) (accounts : List Account) (r : Portfolio)
    → fails_with (add_accounts prices accounts r) not_found ≡ false
unfolding add_accounts
add_accounts-fails_with prices [] r = refl
add_accounts-fails_with prices (a ∷ rest) r = elim (Result-cases (add_account prices a r)) [
  | inl (r', done) ↦ ground (arith, add_accounts-fails_with prices rest r')
  | inr (e, failed) ↦ ground (arith, add_account-fails_with prices a r)
]

-- If the price port never answers that a customer was not found, then Get says so exactly when the
-- account port does.
pub get-fails_with_not_found :
    {W : Type 0} (ports : Ports W) (order : List Text → List Text) (id : Text) (w : W)
    → ((symbols : List Text) (v : W)
        → fails_with (ports.prices symbols v).0 Sentinel.customer_not_found ≡ false)
    → fails_with (get ports order id w).0 Sentinel.customer_not_found
      ≡ fails_with (ports.accounts id w).0 Sentinel.customer_not_found
unfolding get error_is
get-fails_with_not_found ports order id w h = elim (Result-cases (ports.accounts id w).0) [
  | inr (e, failed) ↦ ground arith
  | inl (accounts, loaded) ↦
      let symbols = unique_symbols order accounts in
      let middle = (ports.accounts id w).1 in
      elim (Result-cases (ports.prices symbols middle).0) [
        | inr (e, failed) ↦ ground (arith, h symbols middle)
        | inl (prices, priced) ↦
            ground (arith, add_accounts-fails_with prices accounts (start_portfolio id))
      ]
]

-- An error of the account port ends Get: the price port is not called, and errors.Is finds in the
-- returned error just what it finds in the port's.
pub get_stops :
    {W : Type 0} (ports : Ports W) (order : List Text → List Text) (id : Text) (w : W) (e : Failure)
    → (ports.accounts id w).0 ≡ err e
    → ((get ports order id w).1 ≡ (ports.accounts id w).1)
      × ((s : Sentinel) → fails_with (get ports order id w).0 s ≡ error_is e s)
unfolding get error_is
get_stops ports order id w e h = ground arith

-- Ready succeeds exactly when both ports are healthy, and asks the price port only behind a healthy
-- account port.
pub ready_lem :
    {W : Type 0} (ports : Ports W) (w : W)
    → let middle = (ports.accounts_healthy w).1 in
      (((ready ports w).0 ≡ ok tt)
        ↔ (((ports.accounts_healthy w).0 ≡ ok tt) × ((ports.prices_healthy middle).0 ≡ ok tt)))
      × ((e : Failure) → (ports.accounts_healthy w).0 ≡ err e → (ready ports w).1 ≡ middle)
unfolding ready
ready_lem ports w = ground arith
