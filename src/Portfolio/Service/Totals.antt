-- ===== src/Portfolio/Service/Totals.antt =====
-- The outer loop of Service.Get: the accounts of the portfolio, and what they add up to.
use mathlib.Core.Path.{subst}
use factory_demo.Base.{
  List, [], ◌∷◌, ◌++◌, ◌≡◌, ◌≢◌, inl, inr, refl, sym, ap, ◌∙◌, Result-cases, false, ok, arith,
  append-nil, append_assoc, All,
}
use factory_demo.Base.Int.{ℤ, pos, Fits64, wrap64, add64, ◌+ℤ◌, wrap64-Fits64}
use factory_demo.Text.{Text}
use factory_demo.Text.Ends.{is_empty-false}
use factory_demo.Dict.{Dict}
use factory_demo.Domain.Money.{Money, add}
use factory_demo.Domain.Money.Sums.{add-eq-ok_iff}
use factory_demo.Domain.Values.{
  Time, after, Position, Holding, Account, Price, AccountPortfolio, Portfolio,
}
use factory_demo.Portfolio.Service.{
  Progress, value_positions, start_account, finish_account, total_with, add_account, add_accounts,
}
use factory_demo.Portfolio.Service.Holdings.{
  AllPriced, IsPriced-later, sum_holdings, Values, value_positions-Values, wrap64_sum,
  wrap64-+ℤ-zero,
}

module _ (prices : Dict Price) (as_of : Time) where
  -- An account of the portfolio is the account with its positions priced, and its market value is
  -- the cash and the holdings' values, added up in int64.
  pub record IsValued (a : Account) (p : AccountPortfolio) : Type 0 where
    pub same_id : p.id ≡ a.id
    pub same_type : p.type ≡ a.type
    pub same_cash : p.cash ≡ a.cash
    pub priced : AllPriced prices a.cash.currency as_of a.positions p.holdings
    pub same_currency : p.market_value.currency ≡ a.cash.currency
    pub total : p.market_value.minor ≡ wrap64 (a.cash.minor +ℤ sum_holdings p.holdings)

  -- One account of the portfolio for each account, in order.
  abbrev pub AllValued : List Account → List AccountPortfolio → Type 0
  AllValued [] [] = Unit
  AllValued [] (_ ∷ _) = ⊥
  AllValued (_ ∷ _) [] = ⊥
  AllValued (a ∷ rest) (p ∷ ps) = IsValued a p × AllValued rest ps

abbrev pub sum_accounts : List AccountPortfolio → ℤ
sum_accounts [] = pos 0
sum_accounts (p ∷ ps) = p.market_value.minor +ℤ sum_accounts ps

add_account_inversion :
    (prices : Dict Price) (a : Account) (r r' : Portfolio)
    → add_account prices a r ≡ ok r'
    → (s : Progress) × (total : Money) × (value_positions prices a.id a.positions
          (start_account a r.as_of)
        ≡ ok s)
      × (total_with r.total_market_value s.account_value ≡ ok total)
      × (r' ≡ record r {
        as_of = s.as_of;
        total_market_value = total;
        accounts = r.accounts ++ finish_account a s ∷ [];
      })
unfolding add_account
add_account_inversion prices a r r' e =
    elim (Result-cases (value_positions prices a.id a.positions (start_account a r.as_of))) [
      | inr (failure, refused) ↦ ground arith
      | inl (s, valued) ↦ elim (Result-cases (total_with r.total_market_value s.account_value)) [
        | inr (failure, refused) ↦ ground arith
        | inl (total, summed) ↦ (s, total, valued, summed, ground arith)
      ]
    ]

-- An account has an amount of cash that is an int64, in a currency that is not empty.
pub record HasCash (a : Account) : Type 0 where
  pub fits : Fits64 a.cash.minor
  pub coded : a.cash.currency ≢ []

AllPriced-later :
    (prices : Dict Price) (code : Text) (t u : Time) (ps : List Position) (hs : List Holding)
    → after t u ≡ false
    → AllPriced prices code t ps hs
    → AllPriced prices code u ps hs
AllPriced-later prices code t u [] [] later h = h
AllPriced-later prices code t u [] (_ ∷ _) later h = h
AllPriced-later prices code t u (_ ∷ _) [] later h = h
AllPriced-later prices code t u (p ∷ ps) (x ∷ hs) later h =
    (IsPriced-later t u later h.0, AllPriced-later prices code t u ps hs later h.1)

pub IsValued-later :
    {prices : Dict Price} (t u : Time) {a : Account} {p : AccountPortfolio}
    → after t u ≡ false
    → IsValued prices t a p
    → IsValued prices u a p
IsValued-later {prices} t u {a} {p} later v = record {
  same_id = v.same_id;
  same_type = v.same_type;
  same_cash = v.same_cash;
  priced = AllPriced-later prices a.cash.currency t u a.positions p.holdings later v.priced;
  same_currency = v.same_currency;
  total = v.total;
}

-- What one round of the outer loop has done.
pub record Added (prices : Dict Price) (a : Account) (r r' : Portfolio) : Type 0 where
  pub account : AccountPortfolio
  pub valued : IsValued prices r'.as_of a account
  pub appended : r'.accounts ≡ r.accounts ++ account ∷ []
  pub same_customer : r'.customer_id ≡ r.customer_id
  pub not_older : after r.as_of r'.as_of ≡ false
  pub total : total_with r.total_market_value account.market_value ≡ ok r'.total_market_value

finish-IsValued :
    (prices : Dict Price) (a : Account) (t : Time) (s : Progress)
    → HasCash a
    → Values prices a.positions (start_account a t) s
    → IsValued prices s.as_of a (finish_account a s)
finish-IsValued prices a t s c v = record {
  same_id = refl;
  same_type = refl;
  same_cash = refl;
  priced =
      subst (λ (hs : List Holding). AllPriced prices a.cash.currency s.as_of a.positions hs)
        (sym v.appended) v.priced;
  same_currency = v.same_currency;
  total = v.total c.fits ∙ ap (λ hs. wrap64 (a.cash.minor +ℤ sum_holdings hs)) (sym v.appended);
}

pub add_account-Added :
    (prices : Dict Price) (a : Account) (r r' : Portfolio)
    → HasCash a
    → add_account prices a r ≡ ok r'
    → Added prices a r r'
add_account-Added prices a r r' c e =
    let (s, total, valued, summed, same) = add_account_inversion prices a r r' e in
    let v = value_positions-Values prices a.id a.positions (start_account a r.as_of) s valued in
    record {
      account = finish_account a s;
      valued =
          subst (λ (q : Portfolio). IsValued prices q.as_of a (finish_account a s)) (sym same)
            (finish-IsValued prices a r.as_of s c v);
      appended = ap (λ (q : Portfolio). q.accounts) same;
      same_customer = ap (λ (q : Portfolio). q.customer_id) same;
      not_older = ap (λ (q : Portfolio). after r.as_of q.as_of) same ∙ v.not_older;
      total = summed ∙ ap (λ (q : Portfolio). ok q.total_market_value) (sym same);
    }

pub total_with_first : (m v : Money) → m.currency ≡ [] → total_with m v ≡ ok v
unfolding total_with
total_with_first m v h = rw h

total_with_next :
    (m v t : Money)
    → m.currency ≢ []
    → total_with m v ≡ ok t
    → (v.currency ≡ m.currency) × (t.currency ≡ m.currency) × (t.minor ≡ add64 m.minor v.minor)
unfolding total_with
total_with_next m v t h e = elim (Result-cases (add m v)) [
  | inr (failure, refused) ↦ absurd (ground (arith, is_empty-false m.currency h))
  | inl (sum, added) ↦
      let (same, code, total) = (add-eq-ok_iff m v sum).0 added in
      ground (arith, is_empty-false m.currency h)
]

-- What the loop over the accounts has done when it ends without an error.
pub record Totals (prices : Dict Price) (accounts : List Account) (r r' : Portfolio) : Type 0 where
  pub added : List AccountPortfolio
  pub valued : AllValued prices r'.as_of accounts added
  pub appended : r'.accounts ≡ r.accounts ++ added
  pub same_customer : r'.customer_id ≡ r.customer_id
  pub not_older : after r.as_of r'.as_of ≡ false
  pub coded :
      r.total_market_value.currency ≢ []
      → (r'.total_market_value.currency ≡ r.total_market_value.currency)
        × All (λ p. p.market_value.currency ≡ r.total_market_value.currency) added
  pub total :
      r.total_market_value.currency ≢ []
      → Fits64 r.total_market_value.minor
      → r'.total_market_value.minor ≡ wrap64 (r.total_market_value.minor +ℤ sum_accounts added)

Totals-step :
    (prices : Dict Price) (a : Account) (rest : List Account) (r r' r'' : Portfolio)
    → Added prices a r r'
    → Totals prices rest r' r''
    → Totals prices (a ∷ rest) r r''
Totals-step prices a rest r r' r'' d t = record {
  added = d.account ∷ t.added;
  valued = (IsValued-later r'.as_of r''.as_of t.not_older d.valued, t.valued);
  appended =
      t.appended
      ∙ ap (λ ps. ps ++ t.added) d.appended
      ∙ append_assoc r.accounts (d.account ∷ []) t.added;
  same_customer = t.same_customer ∙ d.same_customer;
  not_older = let p = d.not_older in let q = t.not_older in ground arith;
  coded = λ some_code.
      let (code, kept, _) =
        total_with_next r.total_market_value d.account.market_value r'.total_market_value some_code
          d.total in
      let (same, all_same) = t.coded (rw kept some_code) in
      (
        same ∙ kept,
        (
          code,
          subst (λ (c : Text). All (λ (p : AccountPortfolio). p.market_value.currency ≡ c) t.added)
              kept all_same,
        ),
      );
  total = λ some_code fits.
      let (_, kept, sum) =
        total_with_next r.total_market_value d.account.market_value r'.total_market_value some_code
          d.total in
      t.total (rw kept some_code) (subst Fits64 (sym sum) (wrap64-Fits64 _))
      ∙ ap (λ m. wrap64 (m +ℤ sum_accounts t.added)) sum
      ∙ wrap64_sum r.total_market_value.minor d.account.market_value.minor (sum_accounts t.added);
}

pub add_accounts-Totals :
    (prices : Dict Price) (accounts : List Account) (r r' : Portfolio)
    → All HasCash accounts
    → add_accounts prices accounts r ≡ ok r'
    → Totals prices accounts r r'
unfolding add_accounts
add_accounts-Totals prices [] r r' c e =
    let same : r' ≡ r = cc in
    record {
      added = [];
      valued = tt;
      appended = ap (λ (q : Portfolio). q.accounts) same ∙ sym (append-nil r.accounts);
      same_customer = ap (λ (q : Portfolio). q.customer_id) same;
      not_older = rw same (ground arith);
      coded = λ _. (ap (λ (q : Portfolio). q.total_market_value.currency) same, tt);
      total = λ _ fits.
          ap (λ (q : Portfolio). q.total_market_value.minor) same
          ∙ wrap64-+ℤ-zero r.total_market_value.minor fits;
    }
add_accounts-Totals prices (a ∷ rest) r r' c e = elim (Result-cases (add_account prices a r)) [
  | inl (r1, one) ↦
      Totals-step prices a rest r r1 r' (add_account-Added prices a r r1 c.0 one)
        (add_accounts-Totals prices rest r1 r' c.1 (ground arith))
  | inr (failure, refused) ↦ absurd (ground arith)
]
