-- ===== src/Failure.antt =====
-- Go's error values as the packages of internal/ build them: sentinels, fixed texts, and chains made
-- by fmt.Errorf with %w. One type serves all packages, since errors cross their boundaries.
use factory_demo.Base.{ℕ, ◌++◌, Bool, true, false, Option, none, some, Result, ok, err}
use factory_demo.Text.{Text, codes, format_nat}

-- The package variables that callers look for with errors.Is.
pub data Sentinel : Type 0 where
  customer_not_found price_unavailable : Sentinel
  currency_mismatch invalid_quantity fractional_minor : Sentinel

-- The errors whose text is a constant.
pub data Fixed : Type 0 where
  currency_code : Fixed
  envelope_decode strict_decode trailing_data : Fixed
  body_too_large mixed_signatures unsupported_signature : Fixed
  identity_invalid contract_invalid account_invalid category_invalid : Fixed
  cash_invalid currency_invalid position_invalid positions_invalid assets_invalid : Fixed
  market_price_invalid : Fixed

pub data Service : Type 0 where
  core core_health market market_health : Service

-- The text in front of a wrapped error.
pub data Context : Type 0 where
  load_accounts load_prices total_portfolio : Context
  value_of total_account : Text → Context
  accounts_dependency prices_dependency : Context
  create_core_request create_market_request create_market_health_request : Context
  read_core_response decode_market_response : Context
  parse_core_cash core_quantity : Context
  parse_price_for : Text → Context

-- The text behind a wrapped sentinel.
pub data Detail : Type 0 where
  quoted about : Text → Detail
  precision : Detail
  currencies : Text → Text → Detail

pub data Failure : Type 0 where
  sentinel : Sentinel → Failure
  fixed : Fixed → Failure
  status : Service → ℕ → Failure
  transport : Service → Failure → Failure
  within : Context → Failure → Failure
  detailed : Sentinel → Detail → Failure
  foreign : Text → Failure
  url_error : Text → Failure → Failure

abbrev pub sentinel_eq : Sentinel → Sentinel → Bool
sentinel_eq Sentinel.customer_not_found Sentinel.customer_not_found = true
sentinel_eq Sentinel.price_unavailable Sentinel.price_unavailable = true
sentinel_eq Sentinel.currency_mismatch Sentinel.currency_mismatch = true
sentinel_eq Sentinel.invalid_quantity Sentinel.invalid_quantity = true
sentinel_eq Sentinel.fractional_minor Sentinel.fractional_minor = true
sentinel_eq _ _ = false

-- errors.Is, for a sentinel of the program.
unfoldable pub error_is : Failure → Sentinel → Bool
error_is (sentinel s) t = sentinel_eq s t
error_is (fixed f) t = false
error_is (status s n) t = false
error_is (transport s e) t = error_is e t
error_is (within c e) t = error_is e t
error_is (detailed s d) t = sentinel_eq s t
error_is (foreign m) t = false
error_is (url_error u e) t = error_is e t

-- A call ended with an error that errors.Is finds the sentinel in.
abbrev pub fails_with {ℓ} : {A : Type ℓ} → Result Failure A → Sentinel → Bool
fails_with (ok _) s = false
fails_with (err e) s = error_is e s

-- errors.As with a *url.Error: the error inside the first one of the chain.
unfoldable pub as_url_error : Failure → Option Failure
as_url_error (sentinel s) = none
as_url_error (fixed f) = none
as_url_error (status s n) = none
as_url_error (transport s e) = as_url_error e
as_url_error (within c e) = as_url_error e
as_url_error (detailed s d) = none
as_url_error (foreign m) = none
as_url_error (url_error u e) = some e

abbrev pub sentinel_text : Sentinel → Text
sentinel_text Sentinel.customer_not_found = codes "customer not found"
sentinel_text Sentinel.price_unavailable = codes "price unavailable"
sentinel_text Sentinel.currency_mismatch = codes "currency mismatch"
sentinel_text Sentinel.invalid_quantity = codes "invalid quantity"
sentinel_text Sentinel.fractional_minor = codes "value cannot be represented in minor units"

abbrev pub fixed_text : Fixed → Text
fixed_text Fixed.currency_code = codes "currency must be a three-letter code"
fixed_text Fixed.envelope_decode = codes "core response envelope failed strict decoding"
fixed_text Fixed.strict_decode = codes "core response failed strict decoding"
fixed_text Fixed.trailing_data = codes "core response contains trailing data"
fixed_text Fixed.body_too_large = codes "core response exceeds maximum allowed size"
fixed_text Fixed.mixed_signatures = codes "core response contains mixed contract signatures"
fixed_text Fixed.unsupported_signature =
    codes "core response does not match a supported contract signature"
fixed_text Fixed.identity_invalid = codes "core response failed identity validation"
fixed_text Fixed.contract_invalid = codes "core response failed contract validation"
fixed_text Fixed.account_invalid = codes "core account failed contract validation"
fixed_text Fixed.category_invalid = codes "core account category failed contract validation"
fixed_text Fixed.cash_invalid = codes "core account cash failed contract validation"
fixed_text Fixed.currency_invalid = codes "core account currency failed contract validation"
fixed_text Fixed.position_invalid = codes "core position failed contract validation"
fixed_text Fixed.positions_invalid = codes "core account positions failed contract validation"
fixed_text Fixed.assets_invalid = codes "core account assets failed contract validation"
fixed_text Fixed.market_price_invalid = codes "market price failed contract validation"

abbrev pub service_text : Service → Text
service_text Service.core = codes "core"
service_text Service.core_health = codes "core health"
service_text Service.market = codes "market"
service_text Service.market_health = codes "market health"

abbrev pub context_text : Context → Text
context_text Context.load_accounts = codes "load accounts"
context_text Context.load_prices = codes "load prices"
context_text Context.total_portfolio = codes "total portfolio"
context_text (Context.value_of symbol) = codes "value " ++ symbol
context_text (Context.total_account id) = codes "total account " ++ id
context_text Context.accounts_dependency = codes "accounts dependency"
context_text Context.prices_dependency = codes "prices dependency"
context_text Context.create_core_request = codes "create core request"
context_text Context.create_market_request = codes "create market request"
context_text Context.create_market_health_request = codes "create market health request"
context_text Context.read_core_response = codes "read core response"
context_text Context.decode_market_response = codes "decode market response"
context_text Context.parse_core_cash = codes "parse core cash"
context_text Context.core_quantity = codes "core position quantity failed contract validation"
context_text (Context.parse_price_for symbol) = codes "parse price for " ++ symbol

module _ (quote : Text → Text) where
  -- %q is `quote`, strconv.Quote of the standard library.
  abbrev pub detail_text : Detail → Text
  detail_text (Detail.quoted value) = quote value
  detail_text (Detail.about s) = s
  detail_text Detail.precision = codes "precision exceeds six places"
  detail_text (Detail.currencies a b) = a ++ codes " and " ++ b

  -- Error().
  unfoldable pub error_text : Failure → Text
  unfolding format_nat
  error_text (sentinel s) = sentinel_text s
  error_text (fixed f) = fixed_text f
  error_text (status s n) = service_text s ++ codes " returned HTTP " ++ format_nat n
  error_text (transport s e) = service_text s ++ codes " transport request failed"
  error_text (within c e) = context_text c ++ codes ": " ++ error_text e
  error_text (detailed s d) = sentinel_text s ++ codes ": " ++ detail_text d
  error_text (foreign m) = m
  error_text (url_error u e) = u ++ codes ": " ++ error_text e
