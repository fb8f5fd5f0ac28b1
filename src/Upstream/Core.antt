-- ===== src/Upstream/Core.antt =====
-- CoreClient of internal/upstream/client.go. Decoding JSON is the parameter `json`; what the decoder
-- is told and which of its results are errors is modelled.
pub mod Signatures
pub mod Redaction
pub mod Statuses
pub mod Accepted
pub mod Endpoints
use factory_demo.Base.{
  List, [], ◌∷◌, ◌++◌, Bool, false, ◌&&◌, ◌||◌, Option, none, some, Result, ok, err, ◌>>=◌, ◌==◌,
  if◌then◌else◌,
}
use factory_demo.Text.{Text, codes, text_eq}
use factory_demo.Failure.{Failure, sentinel, fixed, Sentinel, Fixed, Service, Context}
use factory_demo.Domain.Values.{Account}
use factory_demo.Upstream.Wire.{CoreV1Response, CoreV2Response, CoreVersion}
use factory_demo.Upstream.Http.{
  Response, Network, Client, path_escape, read_bounded_body, response_error, fetch, check_health,
}
use factory_demo.Upstream.Mapping.{map_core_v1, map_core_v2}

-- encoding/json on the bytes of a response.
pub record Json : Type 0 where
  -- json.Unmarshal into a map of raw messages: its keys, or `none` for an error.
  pub top_keys : Text → Option (List Text)
  -- Decode with DisallowUnknownFields: the value and the unread rest, or `none` for an error.
  pub decode_v1 : Text → Option (CoreV1Response × Text)
  pub decode_v2 : Text → Option (CoreV2Response × Text)
  -- Whether a further Decode on that rest reports io.EOF.
  pub at_end : Text → Bool

abbrev pub has_key : List Text → Text → Bool
has_key [] k = false
has_key (j ∷ js) k = text_eq j k || has_key js k

abbrev pub key_customer_id : Text
key_customer_id = codes "customer_id"

abbrev pub key_accounts : Text
key_accounts = codes "accounts"

abbrev pub key_client : Text
key_client = codes "client"

abbrev pub key_portfolios : Text
key_portfolios = codes "portfolios"

-- The switch of detectCoreVersion.
unfoldable pub classify : Bool → Bool → Bool → Bool → Result Failure CoreVersion
classify has_customer_id has_accounts has_client has_portfolios =
    if (has_customer_id || has_accounts) && (has_client || has_portfolios)
    then err (fixed Fixed.mixed_signatures)
    else if has_customer_id && has_accounts
    then ok CoreVersion.v1
    else if has_client && has_portfolios
    then ok CoreVersion.v2
    else err (fixed Fixed.unsupported_signature)

abbrev pub classify_keys : Option (List Text) → Result Failure CoreVersion
classify_keys none = err (fixed Fixed.envelope_decode)
classify_keys (some keys) =
    classify (has_key keys key_customer_id) (has_key keys key_accounts) (has_key keys key_client)
      (has_key keys key_portfolios)

module _ (json : Json) where
  -- detectCoreVersion.
  unfoldable pub detect_core_version : Text → Result Failure CoreVersion
  unfolding classify
  detect_core_version raw = classify_keys (json.top_keys raw)

  -- strictDecodeCore, on the result of the first Decode.
  abbrev pub strict_decode_core {ℓ} : {A : Type ℓ} → Option (A × Text) → Result Failure A
  strict_decode_core none = err (fixed Fixed.strict_decode)
  strict_decode_core (some (payload, rest)) =
      if json.at_end rest then ok payload else err (fixed Fixed.trailing_data)

  -- The switch over the versions in Accounts.
  unfoldable pub decode_accounts :
      (Text → Text) → Text → Text → CoreVersion → Result Failure (List Account)
  decode_accounts upper_runes raw customer_id CoreVersion.v1 =
      strict_decode_core (json.decode_v1 raw) >>= λ p. map_core_v1 upper_runes p customer_id
  decode_accounts upper_runes raw customer_id CoreVersion.v2 =
      strict_decode_core (json.decode_v2 raw) >>= λ p. map_core_v2 upper_runes p customer_id
  decode_accounts upper_runes raw customer_id CoreVersion.unknown =
      err (fixed Fixed.unsupported_signature)

  -- Accounts, from the response on.
  unfoldable pub accounts_of : (Text → Text) → Text → Response → Result Failure (List Account)
  accounts_of upper_runes customer_id response =
      if response.status_code == 404
      then err (sentinel Sentinel.customer_not_found)
      else if response.status_code == 200
      then (read_bounded_body response.body >>= λ raw. detect_core_version raw >>= λ version.
          decode_accounts upper_runes raw customer_id version)
      else err (response_error Service.core response)

  abbrev pub accounts_endpoint : Client → Text → Text
  accounts_endpoint client customer_id =
      client.base_url ++ (codes "/v1/customers/" ++ (path_escape customer_id ++ codes "/accounts"))

  module _ {W : Type 0} (net : Network W) (client : Client) where
    -- CoreClient.Accounts.
    unfoldable pub accounts : (Text → Text) → Text → W → Result Failure (List Account) × W
    accounts upper_runes customer_id w =
        let (answer, w') =
          fetch net Context.create_core_request Service.core (accounts_endpoint client customer_id)
            w in
        (answer >>= accounts_of upper_runes customer_id, w')

-- CoreClient.Healthy.
unfoldable pub healthy : {W : Type 0} → Network W → Client → W → Result Failure (Unit {0}) × W
healthy net client w =
    check_health net Context.create_core_request Service.core Service.core_health client.base_url w
