-- ===== src/Portfolio/Service/Holdings.antt =====
-- The inner loop of Service.Get: what the holdings of an account are, and what they add up to.
use mathlib.Core.Path.{subst}
use factory_demo.Base.{
  List, [], ◌∷◌, ◌++◌, ◌≡◌, inl, inr, refl, sym, ap, ◌∙◌, Result-cases, some, false, ok, arith,
  append-nil, append_assoc, Option-cases, if◌then◌else◌,
}
use factory_demo.Base.Int.{
  ℤ, pos, Fits64, wrap64, add64, ◌+ℤ◌, int_laws, wrap64-Fits64, wrap64-+ℤ, wrap64_fits,
}
use factory_demo.Text.{Text}
use factory_demo.Dict.{Dict, lookup}
use factory_demo.Domain.Money.{Money, add}
use factory_demo.Domain.Money.Sums.{add-eq-ok_iff}
use factory_demo.Domain.Quantity.{market_value}
use factory_demo.Domain.Values.{Time, after, Position, Price, Holding}
use factory_demo.Portfolio.Service.{Progress, value_position, value_positions}

module _ (prices : Dict Price) (code : Text) (as_of : Time) where
  -- A holding is its position at the price of its symbol, in the account's currency, and the price is
  -- not newer than the portfolio.
  pub record IsPriced (p : Position) (h : Holding) : Type 0 where
    pub price : Price
    pub found : lookup p.symbol prices ≡ some price
    pub same_symbol : h.symbol ≡ p.symbol
    pub same_quantity : h.quantity ≡ p.quantity
    pub at_price : h.unit_price ≡ price.value
    pub valued : market_value p.quantity price.value ≡ ok h.market_value
    pub same_currency : h.market_value.currency ≡ code
    pub not_newer : after price.as_of as_of ≡ false

  -- One holding for each position, in order.
  abbrev pub AllPriced : List Position → List Holding → Type 0
  AllPriced [] [] = Unit
  AllPriced [] (_ ∷ _) = ⊥
  AllPriced (_ ∷ _) [] = ⊥
  AllPriced (p ∷ ps) (h ∷ hs) = IsPriced p h × AllPriced ps hs

abbrev pub sum_holdings : List Holding → ℤ
sum_holdings [] = pos 0
sum_holdings (h ∷ hs) = h.market_value.minor +ℤ sum_holdings hs

abbrev pub holding : Position → Price → Money → Holding
holding p price value = record {
  symbol = p.symbol;
  quantity = p.quantity;
  unit_price = price.value;
  market_value = value;
}

abbrev pub advance : Progress → Price → Position → Money → Money → Progress
advance s price p value sum = record {
  account_value = sum;
  as_of = if after price.as_of s.as_of then price.as_of else s.as_of;
  holdings = s.holdings ++ holding p price value ∷ [];
}

-- A round that succeeds found a price, a value and a sum.
value_position_inversion :
    (prices : Dict Price) (id : Text) (p : Position) (s s' : Progress)
    → value_position prices id p s ≡ ok s'
    → (price : Price) × (value : Money) × (sum : Money) × (lookup p.symbol prices ≡ some price)
      × (market_value p.quantity price.value ≡ ok value)
      × (add s.account_value value ≡ ok sum)
      × (s' ≡ advance s price p value sum)
unfolding value_position
value_position_inversion prices id p s s' e = elim (Option-cases (lookup p.symbol prices)) [
  | inl missing ↦ ground arith
  | inr (price, found) ↦ elim (Result-cases (market_value p.quantity price.value)) [
    | inr (failure, refused) ↦ ground arith
    | inl (value, valued) ↦ elim (Result-cases (add s.account_value value)) [
      | inr (failure, refused) ↦ ground arith
      | inl (sum, added) ↦ (price, value, sum, found, valued, added, ground arith)
    ]
  ]
]

newest_after :
    (s : Progress) (price : Price) (p : Position) (value sum : Money)
    → (after s.as_of (advance s price p value sum).as_of ≡ false)
      × (after price.as_of (advance s price p value sum).as_of ≡ false)
newest_after s price p value sum = ground arith

-- One round appends one priced holding and adds its value.
value_position_sound :
    (prices : Dict Price) (id : Text) (p : Position) (s s' : Progress)
    → value_position prices id p s ≡ ok s'
    → (h : Holding) × IsPriced prices s.account_value.currency s'.as_of p h
      × (s'.holdings ≡ s.holdings ++ h ∷ [])
      × (s'.account_value.currency ≡ s.account_value.currency)
      × (s'.account_value.minor ≡ add64 s.account_value.minor h.market_value.minor)
      × (after s.as_of s'.as_of ≡ false)
value_position_sound prices id p s s' e =
    let (price, value, sum, found, valued, added, same) =
      value_position_inversion prices id p s s' e in
    let (code, kept, total) = (add-eq-ok_iff s.account_value value sum).0 added in
    let (older, newer) = newest_after s price p value sum in
    (
      holding p price value,
      record {
        price = price;
        found = found;
        same_symbol = refl;
        same_quantity = refl;
        at_price = refl;
        valued = valued;
        same_currency = sym code;
        not_newer = ap (λ (q : Progress). after price.as_of q.as_of) same ∙ newer;
      },
      ap (λ (q : Progress). q.holdings) same,
      ap (λ (q : Progress). q.account_value.currency) same ∙ kept,
      ap (λ (q : Progress). q.account_value.minor) same ∙ total,
      ap (λ (q : Progress). after s.as_of q.as_of) same ∙ older,
    )

pub IsPriced-later :
    {prices : Dict Price} {code : Text} (t u : Time) {p : Position} {h : Holding}
    → after t u ≡ false
    → IsPriced prices code t p h
    → IsPriced prices code u p h
IsPriced-later t u later i = record {
  price = i.price;
  found = i.found;
  same_symbol = i.same_symbol;
  same_quantity = i.same_quantity;
  at_price = i.at_price;
  valued = i.valued;
  same_currency = i.same_currency;
  not_newer = let old = i.not_newer in ground arith;
}

+ℤ_assoc : (a b c : ℤ) → a +ℤ b +ℤ c ≡ a +ℤ (b +ℤ c)
+ℤ_assoc a b c = omega int_laws

+ℤ-zero : (a : ℤ) → a +ℤ pos 0 ≡ a
+ℤ-zero a = omega int_laws

-- The wrapped sum of a wrapped sum.
pub wrap64_sum : (a b c : ℤ) → wrap64 (add64 a b +ℤ c) ≡ wrap64 (a +ℤ (b +ℤ c))
wrap64_sum a b c = wrap64-+ℤ (a +ℤ b) c ∙ ap wrap64 (+ℤ_assoc a b c)

pub wrap64-+ℤ-zero : (a : ℤ) → Fits64 a → a ≡ wrap64 (a +ℤ pos 0)
wrap64-+ℤ-zero a h = sym (ap wrap64 (+ℤ-zero a) ∙ wrap64_fits a h)

-- What the loop over the positions has done when it ends without an error: one priced holding for
-- each position, in order, whose values add up.
pub record Values (prices : Dict Price) (ps : List Position) (s s' : Progress) : Type 0 where
  pub added : List Holding
  pub priced : AllPriced prices s.account_value.currency s'.as_of ps added
  pub appended : s'.holdings ≡ s.holdings ++ added
  pub same_currency : s'.account_value.currency ≡ s.account_value.currency
  pub total :
      Fits64 s.account_value.minor
      → s'.account_value.minor ≡ wrap64 (s.account_value.minor +ℤ sum_holdings added)
  pub not_older : after s.as_of s'.as_of ≡ false

after_trans : (t u v : Time) → after t u ≡ false → after u v ≡ false → after t v ≡ false
after_trans t u v h k = ground arith

value_positions-step :
    (prices : Dict Price) (p : Position) (ps : List Position) (id : Text) (s s' s'' : Progress)
    → value_position prices id p s ≡ ok s'
    → Values prices ps s' s''
    → Values prices (p ∷ ps) s s''
value_positions-step prices p ps id s s' s'' e v =
    let (h, one, held, code, sum, older) = value_position_sound prices id p s s' e in
    record {
      added = h ∷ v.added;
      priced = (
        IsPriced-later s'.as_of s''.as_of v.not_older one,
        subst (λ (c : Text). AllPriced prices c s''.as_of ps v.added) code v.priced,
      );
      appended =
          v.appended ∙ ap (λ hs. hs ++ v.added) held ∙ append_assoc s.holdings (h ∷ []) v.added;
      same_currency = v.same_currency ∙ code;
      total = λ fits.
          v.total (subst Fits64 (sym sum) (wrap64-Fits64 _))
          ∙ ap (λ m. wrap64 (m +ℤ sum_holdings v.added)) sum
          ∙ wrap64_sum s.account_value.minor h.market_value.minor (sum_holdings v.added);
      not_older = after_trans s.as_of s'.as_of s''.as_of older v.not_older;
    }

pub value_positions-Values :
    (prices : Dict Price) (id : Text) (ps : List Position) (s s' : Progress)
    → value_positions prices id ps s ≡ ok s'
    → Values prices ps s s'
unfolding value_positions
value_positions-Values prices id [] s s' e =
    let same : s' ≡ s = cc in
    record {
      added = [];
      priced = tt;
      appended = ap (λ (q : Progress). q.holdings) same ∙ sym (append-nil s.holdings);
      same_currency = ap (λ (q : Progress). q.account_value.currency) same;
      total = λ fits.
          ap (λ (q : Progress). q.account_value.minor) same
          ∙ wrap64-+ℤ-zero s.account_value.minor fits;
      not_older = rw same (ground arith);
    }
value_positions-Values prices id (p ∷ ps) s s' e =
    elim (Result-cases (value_position prices id p s)) [
      | inl (s1, one) ↦
          value_positions-step prices p ps id s s1 s' one
            (value_positions-Values prices id ps s1 s' (ground arith))
      | inr (failure, refused) ↦ absurd (ground arith)
    ]
