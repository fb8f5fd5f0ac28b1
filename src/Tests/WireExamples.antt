-- ===== src/Tests/WireExamples.antt =====
-- Examples for the theorems on the text of Core responses.
use factory_demo.Base.{none, [], ◌∷◌, ◌++◌, ◌≡◌, ◌≢◌, ◌⊎◌, refl, some, ok, err, arith, length, ◌≤◌}
use factory_demo.Base.Int.{pos}
use factory_demo.Text.{Text, codes, text_eq, format_int}
use factory_demo.Failure.{Failure, fixed, sentinel, Fixed, Sentinel}
use factory_demo.Json.{skip_space}
use factory_demo.Json.Times.{parse_rfc3339}
use factory_demo.Json.Encoder.{encode}
use factory_demo.Upstream.Wire.{CoreV1Response, CoreV2Response, CoreVersion}
use factory_demo.Upstream.Http.{max_response_bytes}
use factory_demo.Upstream.Mapping.{map_core_v1, map_core_v2}
use factory_demo.Upstream.Core.{detect_core_version, strict_decode_core, accounts_of}
use factory_demo.Upstream.Decoding.{go_json}
use factory_demo.Upstream.Decoding.Documents.{
  v1_document, v1_account, v1_money, v2_document, v2_client, int_value, IsPlain1, IsPlain2,
}
use factory_demo.Upstream.Decoding.Payloads.{detect_core_version-strict_decode_core}
use factory_demo.Upstream.Decoding.Accounts.{response_with, accounts_of-document}
use factory_demo.Deployment.{new_server}
use factory_demo.Deployment.Demo.{demo_ports, mock_portfolio, answer-mocks}
use factory_demo.Portfolio.Service.{Ports, get}
use factory_demo.HttpApi.{Elapsed, Server}
use factory_demo.HttpApi.Identifier.{IsCustomerId}
use factory_demo.HttpApi.Replies.{answer}
use factory_demo.Upstream.Http.{Body}
use factory_demo.Mocks.Core.{parse_contract_version, handle_accounts}
use factory_demo.Mocks.Client.{accounts_of-handle_accounts}
use factory_demo.Mocks.Client.Payloads.{received, mock_accounts}
use factory_demo.Tests.Fixtures.{same_runes, same_order, nanoseconds}

abbrev small_v1 : CoreV1Response
small_v1 = record {
  customer_id = some (codes "cust-1001");
  accounts = some (
      record {
        account_id = some (codes "acct-1");
        account_type = some (codes "IRA");
        cash_balance =
            some (record { amount_minor = some (pos 250); currency = some (codes "USD") });
        positions = some [];
      }
      ∷ []);
}

abbrev small_v2 : CoreV2Response
small_v2 = record { client = some (record { id = some (codes "cust-1001") }); portfolios = some [] }

small_v1-IsPlain1 : IsPlain1 small_v1
small_v1-IsPlain1 = ground arith

small_v2-IsPlain2 : IsPlain2 small_v2
small_v2-IsPlain2 = ground arith

small_v1_fits : length (encode (v1_document small_v1) ++ codes " ") ≤ max_response_bytes
unfolding encode v1_document v1_account v1_money int_value format_int
small_v1_fits = ground arith

small_v2_fits : length (encode (v2_document small_v2) ++ codes " ") ≤ max_response_bytes
unfolding encode v2_document v2_client
small_v2_fits = ground arith

accounts_of-document_example :
    (accounts_of go_json same_runes
        (codes "cust-1001")
        (response_with (encode (v1_document small_v1) ++ codes " "))
      ≡ map_core_v1 same_runes small_v1 (codes "cust-1001"))
    × (accounts_of go_json same_runes
          (codes "cust-1001")
          (response_with (encode (v2_document small_v2) ++ codes " "))
        ≡ map_core_v2 same_runes small_v2 (codes "cust-1001"))
accounts_of-document_example =
    accounts_of-document same_runes (codes "cust-1001") (codes " ") small_v1 small_v2
      small_v1-IsPlain1 small_v2-IsPlain2 (unfold skip_space in refl) small_v1_fits small_v2_fits

abbrev bare : Text
bare = codes "{\"accounts\": [], \"customer_id\": null} "

bare_detected : detect_core_version go_json bare ≡ ok CoreVersion.v1
unfolding detect_core_version go_json text_eq
bare_detected = refl

detect_core_version-strict_decode_core_example :
    (strict_decode_core go_json (go_json.decode_v1 bare) ≢ err (fixed Fixed.trailing_data))
    × (strict_decode_core go_json (go_json.decode_v2 bare) ≢ err (fixed Fixed.trailing_data))
detect_core_version-strict_decode_core_example =
    detect_core_version-strict_decode_core bare CoreVersion.v1 bare_detected

v2_configured : parse_contract_version same_runes (codes "v2") ≡ ok (codes "v2")
unfolding parse_contract_version text_eq
v2_configured = refl

accounts_of-handle_accounts_example :
    ((codes "cust-1001" ≡ codes "cust-1001")
      × (accounts_of go_json same_runes
            (codes "cust-1001")
            (received (handle_accounts (codes "v2") (codes "cust-1001")))
          ≡ ok mock_accounts))
    ⊎ ((codes "cust-1001" ≢ codes "cust-1001")
        × (accounts_of go_json same_runes
              (codes "cust-1001")
              (received (handle_accounts (codes "v2") (codes "cust-1001")))
            ≡ err (sentinel Sentinel.customer_not_found)))
accounts_of-handle_accounts_example =
    accounts_of-handle_accounts same_runes same_runes (codes "v2") (codes "v2") (codes "cust-1001")
      v2_configured

abbrev refused_body : Body → Failure
refused_body body = Failure.foreign (codes "invalid")

abbrev mock_ports : Ports (Unit {0})
mock_ports = demo_ports same_runes refused_body (codes "v2")

abbrev no_time : Elapsed
no_time = record { observed = pos 0; logged = pos 0 }

abbrev mock_server : Server nanoseconds (Unit {0})
mock_server = new_server nanoseconds tt

answer-mocks_example :
    ((codes "cust-1001" ≡ codes "cust-1001")
      × ((answer mock_ports same_order (codes "cust-1001") no_time mock_server).status ≡ some 200)
      × ((get mock_ports same_order (codes "cust-1001") tt).0 ≡ ok mock_portfolio))
    ⊎ ((IsCustomerId (codes "cust-1001")
          × (codes "cust-1001" ≢ codes "cust-1001")
          × ((answer mock_ports same_order (codes "cust-1001") no_time mock_server).status
              ≡ some 404))
        ⊎ ((¬ IsCustomerId (codes "cust-1001"))
            × ((answer mock_ports same_order (codes "cust-1001") no_time mock_server).status
                ≡ some 400)))
answer-mocks_example =
    answer-mocks same_runes refused_body (codes "v2") same_order same_runes (codes "v2")
      (codes "cust-1001") no_time mock_server (λ ts s. refl) v2_configured

-- An hour of one digit, a comma and an offset of 24 hours; and a day that the month has not.
lenient_time :
    parse_rfc3339 (codes "0001-01-03T1:00:00,5+24:00")
    ≡ some (record { instant = pos 90_000_500_000_000; offset = pos 86_400 })
unfolding parse_rfc3339
lenient_time = refl

refused_time : parse_rfc3339 (codes "2026-02-29T01:00:00Z") ≡ none
unfolding parse_rfc3339
refused_time = refl
