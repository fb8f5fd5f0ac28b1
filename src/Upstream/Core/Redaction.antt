-- ===== src/Upstream/Core/Redaction.antt =====
-- The errors that CoreClient.Accounts of internal/upstream/client.go makes behind a response.
use factory_demo.Base.{
  ℕ, ◌+◌, List, [], ◌∷◌, ◌≡◌, refl, Option, some, none, Bool, true, false, Result, ok, err, ◌>>=◌,
  collect, arith, if◌then◌else◌,
}
use factory_demo.Base.Int.{ℤ}
use factory_demo.Text.{Text}
use factory_demo.Failure.{Failure, fixed, within, sentinel, Fixed, Sentinel, Context}
use factory_demo.Domain.Money.{new_money}
use factory_demo.Upstream.Wire.{
  CoreV1Account, CoreV1Response, CoreV2Portfolio, CoreV2Response, CoreVersion,
}
use factory_demo.Upstream.Http.{
  Body, Response, read_bounded_body, limit_reader, check_bounded, max_response_bytes,
}
use factory_demo.Upstream.Items.{core_parse_money, core_parse_position}
use factory_demo.Upstream.Mapping.{
  required, nonempty, map_core_v1_account, map_core_v1, map_core_v2_portfolio, map_core_v2,
  is_core_category,
}
use factory_demo.Upstream.Core.{
  Json, detect_core_version, strict_decode_core, decode_accounts, accounts_of,
}

abbrev pub is_core_fixed : Fixed → Bool
is_core_fixed Fixed.currency_code = false
is_core_fixed Fixed.market_price_invalid = false
is_core_fixed _ = true

-- The classes of Core failures: constant texts, with nothing of the payload in them.
abbrev pub is_core_class : Failure → Bool
is_core_class (fixed f) = is_core_fixed f
is_core_class (within Context.parse_core_cash (fixed Fixed.currency_code)) = true
is_core_class (within Context.core_quantity (sentinel Sentinel.invalid_quantity)) = true
is_core_class _ = false

-- A call fails with such a class, if it fails.
abbrev pub FailsSafely {ℓ} : {A : Type ℓ} → Result Failure A → Type 0
FailsSafely (ok _) = Unit
FailsSafely (err e) = is_core_class e ≡ true

FailsSafely->>= :
    {A B : Type 0} (m : Result Failure A) (f : A → Result Failure B)
    → FailsSafely m
    → ((a : A) → FailsSafely (f a))
    → FailsSafely (m >>= f)
FailsSafely->>= (ok a) f h k = k a
FailsSafely->>= (err e) f h k = h

FailsSafely-collect :
    {A B : Type 0} (f : A → Result Failure B) (xs : List A)
    → ((a : A) → FailsSafely (f a))
    → FailsSafely (collect f xs)
FailsSafely-collect f [] k = tt
FailsSafely-collect f (x ∷ xs) k =
    FailsSafely->>= (f x) _ (k x)
      (λ y. FailsSafely->>= (collect f xs) _ (FailsSafely-collect f xs k) (λ ys. tt))

required-FailsSafely :
    {A : Type 0} (f : Fixed) (o : Option A) → is_core_fixed f ≡ true → FailsSafely (required f o)
required-FailsSafely f none h = h
required-FailsSafely f (some a) h = tt

nonempty-FailsSafely :
    (f : Fixed) (o : Option Text) → is_core_fixed f ≡ true → FailsSafely (nonempty f o)
nonempty-FailsSafely f none h = h
nonempty-FailsSafely f (some t) h = ground arith

core_parse_money-FailsSafely :
    (u : Text → Text) (m : Option ℤ) (c : Option Text) (strict : Bool)
    → FailsSafely (core_parse_money u m c strict)
unfolding core_parse_money new_money
core_parse_money-FailsSafely u none c strict = refl
core_parse_money-FailsSafely u (some m) none strict = refl
core_parse_money-FailsSafely u (some m) (some c) strict = ground arith

core_parse_position-FailsSafely :
    (s q : Option Text) (strict : Bool) → FailsSafely (core_parse_position s q strict)
unfolding core_parse_position
core_parse_position-FailsSafely none q strict = refl
core_parse_position-FailsSafely (some s) none strict = refl
core_parse_position-FailsSafely (some s) (some q) strict = ground arith

map_core_v1_account-FailsSafely :
    (u : Text → Text) (item : CoreV1Account) → FailsSafely (map_core_v1_account u item)
unfolding map_core_v1_account
map_core_v1_account-FailsSafely u item =
    FailsSafely->>= _ _ (nonempty-FailsSafely _ item.account_id refl) (λ id.
      FailsSafely->>= _ _ (nonempty-FailsSafely _ item.account_type refl) (λ type.
        FailsSafely->>= _ _ (required-FailsSafely _ item.cash_balance refl) (λ balance.
          FailsSafely->>= _ _ (core_parse_money-FailsSafely u _ _ false) (λ cash.
            FailsSafely->>= _ _ (required-FailsSafely _ item.positions refl) (λ listed.
              FailsSafely->>= _ _
                (FailsSafely-collect _ listed (λ p. core_parse_position-FailsSafely _ _ false))
                (λ ps. tt))))))

category-FailsSafely :
    (c : Text)
    → FailsSafely {A = Text}
        (if is_core_category c then ok c else err (fixed Fixed.category_invalid))
category-FailsSafely c = ground arith

map_core_v2_portfolio-FailsSafely :
    (u : Text → Text) (item : CoreV2Portfolio) → FailsSafely (map_core_v2_portfolio u item)
unfolding map_core_v2_portfolio
map_core_v2_portfolio-FailsSafely u item =
    FailsSafely->>= _ _ (nonempty-FailsSafely _ item.id refl) (λ id.
      FailsSafely->>= _ _ (required-FailsSafely _ item.category refl) (λ category.
        FailsSafely->>= _ _ (category-FailsSafely category) (λ type.
          FailsSafely->>= _ _ (required-FailsSafely _ _ refl) (λ money.
            FailsSafely->>= _ _ (core_parse_money-FailsSafely u _ _ true) (λ cash.
              FailsSafely->>= _ _ (required-FailsSafely _ item.assets refl) (λ listed.
                FailsSafely->>= _ _
                  (FailsSafely-collect _ listed (λ p. core_parse_position-FailsSafely _ _ true))
                  (λ ps. tt)))))))

map_core_v1-FailsSafely :
    (u : Text → Text) (p : CoreV1Response) (id : Text) → FailsSafely (map_core_v1 u p id)
unfolding map_core_v1
map_core_v1-FailsSafely u p id = ground (
  arith,
  FailsSafely->>= (required Fixed.contract_invalid p.accounts) (collect (map_core_v1_account u))
      (required-FailsSafely _ p.accounts refl)
      (λ items. FailsSafely-collect _ items (map_core_v1_account-FailsSafely u)),
)

map_core_v2-FailsSafely :
    (u : Text → Text) (p : CoreV2Response) (id : Text) → FailsSafely (map_core_v2 u p id)
unfolding map_core_v2
map_core_v2-FailsSafely u p id = ground (
  arith,
  FailsSafely->>= (required Fixed.contract_invalid p.portfolios) (collect (map_core_v2_portfolio u))
      (required-FailsSafely _ p.portfolios refl)
      (λ items. FailsSafely-collect _ items (map_core_v2_portfolio-FailsSafely u)),
)

check_bounded-FailsSafely :
    (fault : Option Failure) (raw : Text) → fault ≡ none → FailsSafely (check_bounded fault raw)
unfolding check_bounded
check_bounded-FailsSafely none raw h = ground arith
check_bounded-FailsSafely (some e) raw h = absurd (ground arith)

limit_reader-fault : (n : ℕ) (body : Body) → body.fault ≡ none → (limit_reader n body).fault ≡ none
unfolding limit_reader
limit_reader-fault n body h = ground arith

module _ (json : Json) where
  strict_decode_core-FailsSafely :
      {A : Type 0} (d : Option (A × Text)) → FailsSafely (strict_decode_core json d)
  strict_decode_core-FailsSafely none = refl
  strict_decode_core-FailsSafely (some (p, rest)) = ground arith

  detect_core_version-FailsSafely : (raw : Text) → FailsSafely (detect_core_version json raw)
  unfolding detect_core_version
  detect_core_version-FailsSafely raw = ground arith

  decode_accounts-FailsSafely :
      (u : Text → Text) (raw id : Text) (v : CoreVersion)
      → FailsSafely (decode_accounts json u raw id v)
  unfolding decode_accounts
  decode_accounts-FailsSafely u raw id CoreVersion.v1 =
      FailsSafely->>= _ _ (strict_decode_core-FailsSafely (json.decode_v1 raw))
        (λ p. map_core_v1-FailsSafely u p id)
  decode_accounts-FailsSafely u raw id CoreVersion.v2 =
      FailsSafely->>= _ _ (strict_decode_core-FailsSafely (json.decode_v2 raw))
        (λ p. map_core_v2-FailsSafely u p id)
  decode_accounts-FailsSafely u raw id CoreVersion.unknown = refl

  read_bounded_body-FailsSafely :
      (body : Body) → body.fault ≡ none → FailsSafely (read_bounded_body body)
  unfolding read_bounded_body
  read_bounded_body-FailsSafely body h =
      let limited = limit_reader (max_response_bytes + 1) body in
      check_bounded-FailsSafely limited.fault limited.bytes
        (limit_reader-fault (max_response_bytes + 1) body h)

  pub body-FailsSafely :
      (u : Text → Text) (id : Text) (body : Body)
      → body.fault ≡ none
      → FailsSafely (
          read_bounded_body body >>= λ raw.
          detect_core_version json raw >>= λ version. decode_accounts json u raw id version)
  body-FailsSafely u id body h = FailsSafely->>= _ _ (read_bounded_body-FailsSafely body h) (λ raw.
      FailsSafely->>= _ _ (detect_core_version-FailsSafely raw)
        (decode_accounts-FailsSafely u raw id))

  -- Whatever a response with status 200 whose body can be read holds, an error that Accounts makes
  -- of it is one of a fixed set of constants, none of which holds any of the payload.
  pub accounts_of-is_core_class :
      (upper_runes : Text → Text) (customer_id : Text) (response : Response) (e : Failure)
      → response.status_code ≡ 200
      → response.body.fault ≡ none
      → accounts_of json upper_runes customer_id response ≡ err e
      → is_core_class e ≡ true
  unfolding accounts_of
  accounts_of-is_core_class u id response e s h f =
      ground (arith, body-FailsSafely u id response.body h)
