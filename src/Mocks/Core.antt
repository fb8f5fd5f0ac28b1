-- ===== src/Mocks/Core.antt =====
-- cmd/core-mock/main.go.
use factory_demo.Base.{
  List, [], ◌∷◌, ◌++◌, ◌≡◌, ◌≢◌, ◌⊎◌, inl, inr, refl, ◌∙◌, Option, none, some, Bool-cases, Result,
  ok, err, arith, ◌||◌, if◌then◌else◌,
}
use factory_demo.Base.Int.{ℤ, pos}
use factory_demo.Text.{Text, codes, text_eq}
use factory_demo.Text.Order.{text_eq_iff}
use factory_demo.Failure.{Failure, foreign}
use factory_demo.Upstream.Wire.{CoreVersion}
use factory_demo.Upstream.Core.{Json, detect_core_version}
use factory_demo.Upstream.Core.Signatures.{detect_core_version_iff}
use factory_demo.Mocks.{Value, Members, Answer, write_json, array_of, object_of}

abbrev pub object : List (Text × Value) → Value
object members = Value.object (object_of members)

abbrev pub array : List Value → Value
array values = Value.array (array_of values)

-- parseContractVersion. The verb %q is the parameter `quote`.
unfoldable pub parse_contract_version : (Text → Text) → Text → Result Failure Text
parse_contract_version quote value =
    if text_eq value (codes "v1") || text_eq value (codes "v2")
    then ok value
    else err (foreign (codes "unsupported CORE_CONTRACT_VERSION " ++ quote value))

abbrev v1_account : Text → Text → ℤ → Text → Text → Value
v1_account id type minor symbol quantity = object (
    (codes "account_id", Value.text id)
    ∷ (codes "account_type", Value.text type)
    ∷ (
      codes "cash_balance",
      object (
          (codes "amount_minor", Value.number minor)
          ∷ (codes "currency", Value.text (codes "USD"))
          ∷ []),
    )
    ∷ (
      codes "positions",
      array (
          object
            ((codes "symbol", Value.text symbol) ∷ (codes "quantity", Value.text quantity) ∷ [])
          ∷ []),
    )
    ∷ [])

-- v1Response.
abbrev pub v1_response : Value
v1_response = object (
    (codes "customer_id", Value.text (codes "cust-1001"))
    ∷ (
      codes "accounts",
      array (
          v1_account (codes "acct-brokerage-01") (codes "BROKERAGE") (pos 250_000) (codes "AAPL")
            (codes "100")
          ∷ v1_account (codes "acct-retirement-01") (codes "RETIREMENT") (pos 260_000) (codes "BND")
              (codes "200")
          ∷ []),
    )
    ∷ [])

abbrev v2_portfolio : Text → Text → ℤ → Text → Text → Value
v2_portfolio id category minor ticker units = object (
    (codes "id", Value.text id)
    ∷ (codes "category", Value.text category)
    ∷ (
      codes "balances",
      object (
          (
            codes "cash",
            object (
                (codes "minor_units", Value.number minor)
                ∷ (codes "currency_code", Value.text (codes "USD"))
                ∷ []),
          )
          ∷ []),
    )
    ∷ (
      codes "assets",
      array (
          object ((codes "ticker", Value.text ticker) ∷ (codes "units", Value.text units) ∷ [])
          ∷ []),
    )
    ∷ [])

-- v2Response.
abbrev pub v2_response : Value
v2_response = object (
    (codes "client", object ((codes "id", Value.text (codes "cust-1001")) ∷ []))
    ∷ (
      codes "portfolios",
      array (
          v2_portfolio (codes "acct-brokerage-01") (codes "BROKERAGE") (pos 250_000) (codes "AAPL")
            (codes "100")
          ∷ v2_portfolio (codes "acct-retirement-01") (codes "RETIREMENT") (pos 260_000)
              (codes "BND") (codes "200")
          ∷ []),
    )
    ∷ [])

-- The handler of GET /v1/customers/{customerID}/accounts.
unfoldable pub handle_accounts : Text → Text → Answer
handle_accounts version customer_id =
    if text_eq customer_id (codes "cust-1001")
    then (if text_eq version (codes "v2")
        then write_json 200 v2_response
        else write_json 200 v1_response)
    else write_json 404 (object ((codes "error", Value.text (codes "not found")) ∷ []))

-- The handler of GET /health.
unfoldable pub handle_health : Text → Answer
handle_health version = write_json 200 (
    object (
      (codes "status", Value.text (codes "ok"))
      ∷ (codes "contractVersion", Value.text version)
      ∷ []))

-- The member names of an object.
abbrev pub member_names : Members → List Text
member_names Members.no_members = []
member_names (Members.member_and k v ms) = k ∷ member_names ms

abbrev pub keys_of : Value → Option (List Text)
keys_of (Value.object ms) = some (member_names ms)
keys_of (Value.text t) = none
keys_of (Value.number n) = none
keys_of (Value.array vs) = none

-- The version that a configured text asks for.
abbrev pub version_of : Text → CoreVersion
version_of version = if text_eq version (codes "v2") then CoreVersion.v2 else CoreVersion.v1

pub parse_contract_version-ok :
    (quote : Text → Text) (value version : Text)
    → parse_contract_version quote value ≡ ok version
    → value ≡ version
unfolding parse_contract_version
parse_contract_version-ok quote value version h = ground arith

detect_v1 :
    (json : Json) (raw : Text)
    → json.top_keys raw ≡ keys_of v1_response
    → detect_core_version json raw ≡ ok CoreVersion.v1
unfolding text_eq
detect_v1 json raw h =
    (detect_core_version_iff json raw (codes "customer_id" ∷ codes "accounts" ∷ []) h).0.1
      (refl, refl, refl, refl)

detect_v2 :
    (json : Json) (raw : Text)
    → json.top_keys raw ≡ keys_of v2_response
    → detect_core_version json raw ≡ ok CoreVersion.v2
unfolding text_eq
detect_v2 json raw h =
    (detect_core_version_iff json raw (codes "client" ∷ codes "portfolios" ∷ []) h).1.1
      (refl, refl, refl, refl)

-- Under each contract version that the mock accepts, it answers for its one customer with an
-- envelope of which the Core client detects that version, where the decoder reads the member names
-- that were answered, and with 404 for any other text.
pub handle_accounts-detected :
    (json : Json) (quote : Text → Text) (value version customer_id raw : Text)
    → parse_contract_version quote value ≡ ok version
    → json.top_keys raw ≡ keys_of (handle_accounts version customer_id).value
    → ((customer_id ≡ codes "cust-1001")
        × ((handle_accounts version customer_id).status ≡ 200)
        × (detect_core_version json raw ≡ ok (version_of value)))
      ⊎ ((customer_id ≢ codes "cust-1001") × ((handle_accounts version customer_id).status ≡ 404))
unfolding handle_accounts
handle_accounts-detected json quote value version id raw p k =
    let same = parse_contract_version-ok quote value version p in
    elim (Bool-cases (text_eq id (codes "cust-1001"))) [
      | inr other ↦
          inr (λ e. ground (arith, text_eq_iff id (codes "cust-1001")), ground (arith, other))
      | inl known ↦ elim (Bool-cases (text_eq version (codes "v2"))) [
        | inl second ↦ inl (
          (text_eq_iff id (codes "cust-1001")).0 known,
          ground (arith, known, second),
          detect_v2 json raw (k ∙ rw known (rw second refl)) ∙ rw same (rw second refl),
        )
        | inr first ↦ inl (
          (text_eq_iff id (codes "cust-1001")).0 known,
          ground (arith, known, first),
          detect_v1 json raw (k ∙ rw known (rw first refl)) ∙ rw same (rw first refl),
        )
      ]
    ]
