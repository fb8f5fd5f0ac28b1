-- ===== src/Portfolio/Service/Times.antt =====
-- Where the time of a portfolio comes from.
use mathlib.Core.Path.{subst}
use factory_demo.Base.{
  List, [], ◌∷◌, ◌≡◌, refl, inl, inr, some, ok, arith, Bool-cases, Option-cases, Result-cases,
  if◌then◌else◌,
}
use factory_demo.Text.{Text}
use factory_demo.Dict.{Dict, lookup}
use factory_demo.Domain.Money.{add}
use factory_demo.Domain.Quantity.{market_value}
use factory_demo.Domain.Values.{Time, zero_time, after, Position, Account, Price, Portfolio}
use factory_demo.Portfolio.Service.{
  Progress, value_position, value_positions, start_account, total_with, add_account, add_accounts,
}

module _ (prices : Dict Price) where
  -- The zero time, or the time of a price.
  pub data IsDated (t : Time) : Type 0 where
    undated : t ≡ zero_time → IsDated t
    dated :
        (symbol : Text) (price : Price)
        → lookup symbol prices ≡ some price
        → price.as_of ≡ t
        → IsDated t

  later-IsDated :
      (symbol : Text) (price : Price) (t : Time)
      → lookup symbol prices ≡ some price
      → IsDated t
      → IsDated (if after price.as_of t then price.as_of else t)
  later-IsDated symbol price t found d = elim (Bool-cases (after price.as_of t)) [
    | inl newer ↦ rw newer (dated symbol price found refl)
    | inr older ↦ rw older d
  ]

  value_position-as_of :
      (id : Text) (p : Position) (s s' : Progress) (price : Price)
      → lookup p.symbol prices ≡ some price
      → value_position prices id p s ≡ ok s'
      → (if after price.as_of s.as_of then price.as_of else s.as_of) ≡ s'.as_of
  unfolding value_position
  value_position-as_of id p s s' price found e =
      elim (Result-cases (market_value p.quantity price.value)) [
        | inr (f, failed) ↦ absurd (ground arith)
        | inl (v, valued) ↦ elim (Result-cases (add s.account_value v)) [
          | inr (f, failed) ↦ absurd (ground arith)
          | inl (sum, added) ↦ ground arith
        ]
      ]

  value_position-IsDated :
      (id : Text) (p : Position) (s s' : Progress)
      → value_position prices id p s ≡ ok s'
      → IsDated s.as_of
      → IsDated s'.as_of
  value_position-IsDated id p s s' e d = elim (Option-cases (lookup p.symbol prices)) [
    | inl missing ↦ unfold value_position in absurd (ground arith)
    | inr (price, found) ↦
        subst (λ t. IsDated t) (value_position-as_of id p s s' price found e)
          (later-IsDated p.symbol price s.as_of found d)
  ]

  value_positions-IsDated :
      (id : Text) (ps : List Position) (s s' : Progress)
      → value_positions prices id ps s ≡ ok s'
      → IsDated s.as_of
      → IsDated s'.as_of
  unfolding value_positions
  value_positions-IsDated id [] s s' e d =
      let same : s.as_of ≡ s'.as_of = ground arith in subst (λ t. IsDated t) same d
  value_positions-IsDated id (p ∷ ps) s s' e d =
      elim (Result-cases (value_position prices id p s)) [
        | inr (f, failed) ↦ absurd (ground arith)
        | inl (q, one) ↦
            value_positions-IsDated id ps q s' (ground arith)
              (value_position-IsDated id p s q one d)
      ]

  add_account-as_of :
      (a : Account) (r r' : Portfolio) (s : Progress)
      → value_positions prices a.id a.positions (start_account a r.as_of) ≡ ok s
      → add_account prices a r ≡ ok r'
      → s.as_of ≡ r'.as_of
  unfolding add_account
  add_account-as_of a r r' s valued e =
      elim (Result-cases (total_with r.total_market_value s.account_value)) [
        | inr (f, failed) ↦ absurd (ground arith)
        | inl (total, summed) ↦ ground arith
      ]

  add_account-IsDated :
      (a : Account) (r r' : Portfolio)
      → add_account prices a r ≡ ok r'
      → IsDated r.as_of
      → IsDated r'.as_of
  add_account-IsDated a r r' e d =
      elim (Result-cases (value_positions prices a.id a.positions (start_account a r.as_of))) [
        | inr (f, failed) ↦ unfold add_account in absurd (ground arith)
        | inl (s, valued) ↦
            subst (λ t. IsDated t) (add_account-as_of a r r' s valued e)
              (value_positions-IsDated a.id a.positions (start_account a r.as_of) s valued d)
      ]

  pub add_accounts-IsDated :
      (accounts : List Account) (r r' : Portfolio)
      → add_accounts prices accounts r ≡ ok r'
      → IsDated r.as_of
      → IsDated r'.as_of
  unfolding add_accounts
  add_accounts-IsDated [] r r' e d =
      let same : r.as_of ≡ r'.as_of = ground arith in subst (λ t. IsDated t) same d
  add_accounts-IsDated (a ∷ rest) r r' e d = elim (Result-cases (add_account prices a r)) [
    | inr (f, failed) ↦ absurd (ground arith)
    | inl (q, one) ↦ add_accounts-IsDated rest q r' (ground arith) (add_account-IsDated a r q one d)
  ]
