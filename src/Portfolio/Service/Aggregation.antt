-- ===== src/Portfolio/Service/Aggregation.antt =====
-- Service.Get as a whole: what a portfolio is, and exactly when there is one.
use mathlib.Core.Path.{subst}
use factory_demo.Base.{
  List, [], ◌∷◌, ◌++◌, ◌≡◌, ◌≢◌, ◌↔◌, inl, inr, refl, sym, ap, ◌∙◌, ok, arith, All, Result-cases,
}
use factory_demo.Base.Int.{pos, wrap64, wrap64_fits, Fits64, wrap64-Fits64, ◌+ℤ◌}
use factory_demo.Text.{Text}
use factory_demo.Dict.{Dict}
use factory_demo.Domain.Money.{Money}
use factory_demo.Domain.Values.{
  Time, Position, Account, Price, Holding, AccountPortfolio, Portfolio,
}
use factory_demo.Portfolio.Symbols.{unique_symbols}
use factory_demo.Portfolio.Service.{
  Ports, add_account, add_accounts, start_portfolio, get, no_money,
}
use factory_demo.Portfolio.Service.Holdings.{AllPriced}
use factory_demo.Portfolio.Service.Totals.{
  IsValued-later, AllValued, HasCash, Totals, Added, add_accounts-Totals, add_account-Added,
  sum_accounts, total_with_first,
}
use factory_demo.Portfolio.Service.Times.{IsDated, undated, add_accounts-IsDated}
use factory_demo.Portfolio.Service.Success.{CanPrice, CanValue, add_accounts_complete}

-- The portfolio of a customer: every account in order with its holdings, one currency, and the sum
-- of the accounts' values as an int64.
pub record IsPortfolio (id : Text) (prices : Dict Price) (accounts : List Account) (r : Portfolio)
    : Type 0 where
  pub customer : r.customer_id ≡ id
  pub time : IsDated prices r.as_of
  pub valued : AllValued prices r.as_of accounts r.accounts
  pub total : r.total_market_value.minor ≡ wrap64 (sum_accounts r.accounts)
  pub one_currency : All (λ p. p.market_value.currency ≡ r.total_market_value.currency) r.accounts

first_total :
    {prices : Dict Price} {a : Account} {id : Text} {r : Portfolio}
    (d : Added prices a (start_portfolio id) r)
    → r.total_market_value ≡ d.account.market_value
first_total d = cc (d.total, total_with_first no_money d.account.market_value refl)

Totals-IsPortfolio :
    (prices : Dict Price) (a : Account) (rest : List Account) (id : Text) (r r' : Portfolio)
    → HasCash a
    → Added prices a (start_portfolio id) r
    → Totals prices rest r r'
    → IsDated prices r'.as_of
    → IsPortfolio id prices (a ∷ rest) r'
Totals-IsPortfolio prices a rest id r r' c d t at =
    let first = first_total d in
    let all_added : r'.accounts ≡ d.account ∷ t.added =
      t.appended ∙ ap (λ ps. ps ++ t.added) d.appended in
    let code : r.total_market_value.currency ≡ a.cash.currency =
      ap (λ (m : Money). m.currency) first ∙ d.valued.same_currency in
    let minor : r.total_market_value.minor ≡ d.account.market_value.minor =
      ap (λ (m : Money). m.minor) first in
    let some_code : r.total_market_value.currency ≢ [] = λ e. c.coded (sym code ∙ e) in
    let (same, all_same) = t.coded some_code in
    record {
      customer = t.same_customer ∙ d.same_customer;
      time = at;
      valued =
          subst (λ (ps : List AccountPortfolio). AllValued prices r'.as_of (a ∷ rest) ps)
            (sym all_added) (IsValued-later r.as_of r'.as_of t.not_older d.valued, t.valued);
      total =
          t.total some_code (subst Fits64 (sym (minor ∙ d.valued.total)) (wrap64-Fits64 _))
          ∙ ap (λ m. wrap64 (m +ℤ sum_accounts t.added)) minor
          ∙ ap (λ ps. wrap64 (sum_accounts ps)) (sym all_added);
      one_currency =
          subst
            (λ (ps : List AccountPortfolio).
              All
                (λ (p : AccountPortfolio). p.market_value.currency ≡ r'.total_market_value.currency)
                ps)
            (sym all_added)
            (
              ap (λ (m : Money). m.currency) (sym first) ∙ sym same,
              subst
                  (λ (k : Text).
                    All (λ (p : AccountPortfolio). p.market_value.currency ≡ k) t.added)
                  (sym same) all_same,
            );
    }

wrap64_zero : pos 0 ≡ wrap64 (pos 0)
wrap64_zero = sym (wrap64_fits (pos 0) (omega arith))

add_accounts-IsPortfolio :
    (prices : Dict Price) (accounts : List Account) (id : Text) (r : Portfolio)
    → All HasCash accounts
    → add_accounts prices accounts (start_portfolio id) ≡ ok r
    → IsPortfolio id prices accounts r
unfolding add_accounts
add_accounts-IsPortfolio prices [] id r c e =
    let same : r ≡ start_portfolio id = cc in
    subst (λ (q : Portfolio). IsPortfolio id prices [] q) (sym same)
      (record {
        customer = refl;
        time = undated refl;
        valued = tt;
        total = wrap64_zero;
        one_currency = tt;
      })
add_accounts-IsPortfolio prices (a ∷ rest) id r c e =
    elim (Result-cases (add_account prices a (start_portfolio id))) [
      | inr (failure, refused) ↦ absurd (ground arith)
      | inl (r1, one) ↦
          Totals-IsPortfolio prices a rest id r1 r c.0
            (add_account-Added prices a (start_portfolio id) r1 c.0 one)
            (add_accounts-Totals prices rest r1 r c.1 (ground arith))
            (unfold add_accounts in
              add_accounts-IsDated prices (a ∷ rest) (start_portfolio id) r e (undated refl))
    ]

AllPriced-CanPrice :
    (prices : Dict Price) (code : Text) (t : Time) (ps : List Position) (hs : List Holding)
    → AllPriced prices code t ps hs
    → All (CanPrice prices code) ps
AllPriced-CanPrice prices code t [] hs h = tt
AllPriced-CanPrice prices code t (p ∷ ps) [] h = elim h [ ]
AllPriced-CanPrice prices code t (p ∷ ps) (x ∷ hs) h = (
  record {
    price = h.0.price;
    value = x.market_value;
    found = h.0.found;
    valued = h.0.valued;
    same_currency = h.0.same_currency;
  },
  AllPriced-CanPrice prices code t ps hs h.1,
)

AllValued-CanValue :
    (prices : Dict Price) (code : Text) (t : Time) (accounts : List Account)
    (ps : List AccountPortfolio)
    → AllValued prices t accounts ps
    → All (λ p. p.market_value.currency ≡ code) ps
    → All (CanValue prices code) accounts
AllValued-CanValue prices code t [] ps v h = tt
AllValued-CanValue prices code t (a ∷ rest) [] v h = elim v [ ]
AllValued-CanValue prices code t (a ∷ rest) (p ∷ ps) v h =
    let cash : a.cash.currency ≡ code = sym v.0.same_currency ∙ h.0 in
    (
      record {
        cash = cash;
        positions =
            subst (λ (k : Text). All (CanPrice prices k) a.positions) cash
              (AllPriced-CanPrice prices a.cash.currency t a.positions p.holdings v.0.priced);
      },
      AllValued-CanValue prices code t rest ps v.1 h.1,
    )

complete :
    (prices : Dict Price) (accounts : List Account) (id code : Text)
    → All HasCash accounts
    → All (CanValue prices code) accounts
    → (r : Portfolio) × (add_accounts prices accounts (start_portfolio id) ≡ ok r)
complete prices [] id code c v = unfold add_accounts in (start_portfolio id, refl)
complete prices (a ∷ rest) id code c v =
    add_accounts_complete prices code (a ∷ rest) (start_portfolio id)
      (λ e. c.0.coded (v.0.cash ∙ e)) (inl refl) v

module _ {W : Type 0} (ports : Ports W) (order : List Text → List Text) (id : Text) (w : W) where
  -- Both ports have answered, and the accounts' cash is in int64 amounts of a currency.
  pub record HasLoaded (accounts : List Account) (prices : Dict Price) (w'' : W) : Type 0 where
    pub middle : W
    pub loaded : ports.accounts id w ≡ (ok accounts, middle)
    pub priced : ports.prices (unique_symbols order accounts) middle ≡ (ok prices, w'')
    pub cash : All HasCash accounts

  get-loaded :
      (accounts : List Account) (prices : Dict Price) (w'' : W)
      → HasLoaded accounts prices w''
      → get ports order id w ≡ (add_accounts prices accounts (start_portfolio id), w'')
  unfolding get
  get-loaded accounts prices w'' h = ground (arith, h.loaded, h.priced)

-- Where both ports have answered and the accounts' cash is in int64 amounts of a currency, a
-- portfolio that Get returns has every account in order, each position held at its price with the
-- value that MarketValue gives, in the account's currency, one currency and totals that are the
-- int64 sums of their parts, and a time that is a price's or the zero time and that no price of a
-- position is later than.
pub get-IsPortfolio :
    {W : Type 0} (ports : Ports W) (order : List Text → List Text) (id : Text) (w : W)
    (accounts : List Account) (prices : Dict Price) (w'' : W) (r : Portfolio)
    → HasLoaded ports order id w accounts prices w''
    → (get ports order id w).0 ≡ ok r
    → IsPortfolio id prices accounts r
get-IsPortfolio ports order id w accounts prices w'' r h e =
    add_accounts-IsPortfolio prices accounts id r h.cash
      (sym (ap (λ p. p.0) (get-loaded ports order id w accounts prices w'' h)) ∙ e)

-- Where both ports have answered and the accounts' cash is in int64 amounts of a currency, Get
-- succeeds exactly when all accounts are of one currency and every position has a price in it at
-- which MarketValue gives a value.
pub get_succeeds_iff :
    {W : Type 0} (ports : Ports W) (order : List Text → List Text) (id : Text) (w : W)
    (accounts : List Account) (prices : Dict Price) (w'' : W)
    → HasLoaded ports order id w accounts prices w''
    → ((r : Portfolio) × ((get ports order id w).0 ≡ ok r))
      ↔ ((code : Text) × All (CanValue prices code) accounts)
get_succeeds_iff ports order id w accounts prices w'' h =
    let runs = ap (λ p. p.0) (get-loaded ports order id w accounts prices w'' h) in
    (
      λ (r, e).
          let i = get-IsPortfolio ports order id w accounts prices w'' r h e in
          (
            r.total_market_value.currency,
            AllValued-CanValue prices _ r.as_of accounts r.accounts i.valued i.one_currency,
          ),
      λ (code, v). let (r, e) = complete prices accounts id code h.cash v in (r, runs ∙ e),
    )
