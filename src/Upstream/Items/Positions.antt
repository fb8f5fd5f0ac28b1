-- ===== src/Upstream/Items/Positions.antt =====
-- What a success of coreParsePosition and coreParseMoney says of their arguments.
use factory_demo.Base.{
  [], ◌≡◌, ◌≢◌, inl, inr, refl, sym, ap, ◌∙◌, ◌∷◌, ok, Option, some, none, Bool, true, arith,
  Result-cases,
}
use factory_demo.Base.Int.{ℤ}
use factory_demo.Text.{Text}
use factory_demo.Domain.Money.{Money, new_money}
use factory_demo.Domain.Quantity.{parse_quantity}
use factory_demo.Domain.Money.Sums.{new_money-eq-ok_iff}
use factory_demo.Text.Ends.{is_empty-false}
use factory_demo.Domain.Values.{Position}
use factory_demo.Upstream.Items.{
  valid_core_v2_quantity, core_parse_position, is_core_currency, core_parse_money,
}

-- The symbol and the units of an accepted position.
pub record Accepted (symbol quantity : Option Text) (strict : Bool) (p : Position) : Type 0 where
  pub raw : Text
  pub has_symbol : symbol ≡ some p.symbol
  pub has_quantity : quantity ≡ some raw
  pub symbol-ne-nil : p.symbol ≢ []
  pub valid : strict ≡ true → valid_core_v2_quantity raw ≡ true
  pub parsed : parse_quantity raw ≡ ok p.quantity

core_parse_position-some :
    (symbol raw : Text) (strict : Bool) (p : Position)
    → core_parse_position (some symbol) (some raw) strict ≡ ok p
    → (symbol ≢ [])
      × (symbol ≡ p.symbol)
      × (strict ≡ true → valid_core_v2_quantity raw ≡ true)
      × (parse_quantity raw ≡ ok p.quantity)
unfolding core_parse_position
core_parse_position-some [] raw strict p e = absurd (ground arith)
core_parse_position-some (c ∷ s) raw strict p e = elim (Result-cases (parse_quantity raw)) [
  | inl (q, parsed) ↦ ground arith
  | inr (f, refused) ↦ absurd (ground arith)
]

pub core_parse_position-Accepted :
    (symbol quantity : Option Text) (strict : Bool) (p : Position)
    → core_parse_position symbol quantity strict ≡ ok p
    → Accepted symbol quantity strict p
unfolding core_parse_position
core_parse_position-Accepted none quantity strict p e = absurd (ground arith)
core_parse_position-Accepted (some symbol) none strict p e = absurd (ground arith)
core_parse_position-Accepted (some symbol) (some raw) strict p e =
    let (some_symbol, same, valid, parsed) = core_parse_position-some symbol raw strict p e in
    record {
      raw = raw;
      has_symbol = ap some same;
      has_quantity = refl;
      symbol-ne-nil = λ empty. some_symbol (same ∙ empty);
      valid = valid;
      parsed = parsed;
    }

-- What is needed for a position to be accepted.
pub core_parse_position_accepts :
    (raw : Text) (strict : Bool) (p : Position)
    → p.symbol ≢ []
    → (strict ≡ true → valid_core_v2_quantity raw ≡ true)
    → parse_quantity raw ≡ ok p.quantity
    → core_parse_position (some p.symbol) (some raw) strict ≡ ok p
unfolding core_parse_position
core_parse_position_accepts raw strict p h v e = ground (arith, is_empty-false p.symbol h, v)

-- The amount and the code of accepted money.
pub record AcceptedMoney (upper_runes : Text → Text) (minor : Option ℤ) (currency : Option Text)
    (strict : Bool) (m : Money) : Type 0 where
  pub code : Text
  pub has_minor : minor ≡ some m.minor
  pub has_currency : currency ≡ some code
  pub valid : strict ≡ true → is_core_currency code ≡ true
  pub made : new_money upper_runes m.minor code ≡ ok m

pub core_parse_money-AcceptedMoney :
    (upper_runes : Text → Text) (minor : Option ℤ) (currency : Option Text) (strict : Bool)
    (m : Money)
    → core_parse_money upper_runes minor currency strict ≡ ok m
    → AcceptedMoney upper_runes minor currency strict m
unfolding core_parse_money
core_parse_money-AcceptedMoney u none currency strict m e = absurd (ground arith)
core_parse_money-AcceptedMoney u (some minor) none strict m e = absurd (ground arith)
core_parse_money-AcceptedMoney u (some minor) (some code) strict m e =
    elim (Result-cases (new_money u minor code)) [
      | inr (f, refused) ↦ absurd (ground arith)
      | inl (n, made) ↦
          let same : n ≡ m = ground arith in
          let kept = ((new_money-eq-ok_iff u minor code n).0 made).0 in
          record {
            code = code;
            has_minor = ap some (sym kept ∙ ap (λ (k : Money). k.minor) same);
            has_currency = refl;
            valid = ground arith;
            made =
                ap (λ z. new_money u z code) (sym (sym kept ∙ ap (λ (k : Money). k.minor) same))
                ∙ made
                ∙ ap ok same;
          }
    ]

pub core_parse_money_accepts :
    (upper_runes : Text → Text) (code : Text) (strict : Bool) (m : Money)
    → (strict ≡ true → is_core_currency code ≡ true)
    → new_money upper_runes m.minor code ≡ ok m
    → core_parse_money upper_runes (some m.minor) (some code) strict ≡ ok m
unfolding core_parse_money
core_parse_money_accepts u code strict m v e = ground (arith, v)
