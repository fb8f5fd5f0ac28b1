-- ===== src/Upstream/Decoding/Accounts.antt =====
-- Core responses that hold a document, and the accounts that the client yields for them.
use factory_demo.Base.{
  List, length, ◌≤◌, [], ◌∷◌, ◌++◌, ◌≡◌, refl, ap, ◌∙◌, Option, some, true, ok, none, ◌>>=◌,
}
use factory_demo.Text.{Text, is_empty, text_eq}
use factory_demo.Json.{Value, skip_space}
use factory_demo.Json.Scanner.{read}
use factory_demo.Json.Structs.{read_struct, decode}
use factory_demo.Json.Encoder.{encode}
use factory_demo.Json.RoundTrip.Nested.{read-encode}
use factory_demo.Upstream.Wire.{CoreV1Response, CoreV2Response, CoreVersion}
use factory_demo.Upstream.Http.{Response, max_response_bytes}
use factory_demo.Upstream.Mapping.{map_core_v1, map_core_v2}
use factory_demo.Upstream.Core.Signatures.{
  read_bounded_body_iff, detect_core_version_iff, HasV1, HasV2,
}
use factory_demo.Upstream.Core.{
  decode_accounts, accounts_of, detect_core_version, strict_decode_core, key_customer_id,
  key_accounts, key_client, key_portfolios,
}
use factory_demo.Upstream.Decoding.{
  go_json, top_keys, keys_of, set_v1_response, no_v1_response, set_v2_response, no_v2_response,
}
use factory_demo.Upstream.Decoding.Documents.{v1_document, v2_document, IsPlain1, IsPlain2}
use factory_demo.Upstream.Decoding.Encodable.{v1_document-IsEncodable, v2_document-IsEncodable}
use factory_demo.Upstream.Decoding.RoundTrip.{v1_document-Decodes, v2_document-Decodes}

-- A response with status 200 and a body that can be read.
abbrev pub response_with : Text → Response
response_with raw = record { status_code = 200; body = record { bytes = raw; fault = none } }

module _ (upper_runes : Text → Text) (id raw : Text) where
  accounts_of_version :
      (version : CoreVersion)
      → length raw ≤ max_response_bytes
      → detect_core_version go_json raw ≡ ok version
      → accounts_of go_json upper_runes id (response_with raw)
        ≡ decode_accounts go_json upper_runes raw id version
  unfolding accounts_of
  accounts_of_version version fits detected =
      let read_whole = (read_bounded_body_iff (response_with raw).body raw).1 (refl, fits, refl) in
      rw read_whole (rw detected refl)

  module _ (v : Value) (keys : List Text) (space : Text) where
    -- The body is one value with these keys, and white space.
    pub record Holds : Type 0 where
      pub fits : length raw ≤ max_response_bytes
      pub reads : read raw ≡ some (v, space)
      pub blank : is_empty (skip_space space) ≡ true
      pub has_keys : keys_of v ≡ some keys

    keys_detected : Holds → top_keys raw ≡ some keys
    unfolding top_keys
    keys_detected h = rw h.reads (rw h.blank h.has_keys)

    decoded_strictly :
        {A : Type 0} (set : Text → Value → A → Option A) (fresh a : A)
        → Holds
        → read_struct set v fresh ≡ some a
        → strict_decode_core go_json (decode set fresh raw) ≡ ok a
    unfolding go_json decode
    decoded_strictly set fresh a h e = rw h.reads (rw e (rw h.blank refl))

    pub accounts_of-v1 :
        (r : CoreV1Response)
        → Holds
        → HasV1 keys
        → read_struct set_v1_response v no_v1_response ≡ some r
        → accounts_of go_json upper_runes id (response_with raw) ≡ map_core_v1 upper_runes r id
    unfolding decode_accounts go_json
    accounts_of-v1 r h k e =
        accounts_of_version CoreVersion.v1 h.fits
          ((detect_core_version_iff go_json raw keys (keys_detected h)).0.1 k)
        ∙ ap (λ d. d >>= λ p. map_core_v1 upper_runes p id)
            (decoded_strictly set_v1_response no_v1_response r h e)

    pub accounts_of-v2 :
        (r : CoreV2Response)
        → Holds
        → HasV2 keys
        → read_struct set_v2_response v no_v2_response ≡ some r
        → accounts_of go_json upper_runes id (response_with raw) ≡ map_core_v2 upper_runes r id
    unfolding decode_accounts go_json
    accounts_of-v2 r h k e =
        accounts_of_version CoreVersion.v2 h.fits
          ((detect_core_version_iff go_json raw keys (keys_detected h)).1.1 k)
        ∙ ap (λ d. d >>= λ p. map_core_v2 upper_runes p id)
            (decoded_strictly set_v2_response no_v2_response r h e)

module _ (upper_runes : Text → Text) (id space : Text) where
  -- On a response with status 200 that holds the document of a v1 payload with its two members, and
  -- white space, and is at most a mebibyte long, the Core client yields what mapCoreV1 makes of the
  -- payload; and the same holds of v2 payloads and mapCoreV2. The texts of the payloads are ASCII and
  -- the amounts fit in an int64.
  pub accounts_of-document :
      (r : CoreV1Response) (q : CoreV2Response)
      → IsPlain1 r
      → IsPlain2 q
      → is_empty (skip_space space) ≡ true
      → length (encode (v1_document r) ++ space) ≤ max_response_bytes
      → length (encode (v2_document q) ++ space) ≤ max_response_bytes
      → (accounts_of go_json upper_runes id (response_with (encode (v1_document r) ++ space))
          ≡ map_core_v1 upper_runes r id)
        × (accounts_of go_json upper_runes id (response_with (encode (v2_document q) ++ space))
            ≡ map_core_v2 upper_runes q id)
  unfolding v1_document v2_document text_eq
  accounts_of-document r q h k blank fits1 fits2 =
      let v1 = v1_document r in
      let v2 = v2_document q in
      (
        accounts_of-v1 upper_runes id (encode v1 ++ space) v1 (key_customer_id ∷ key_accounts ∷ [])
            space r
            (record {
              fits = fits1;
              reads = read-encode v1 space (v1_document-IsEncodable r h) tt;
              blank = blank;
              has_keys = refl;
            })
            (refl, refl, refl, refl) (v1_document-Decodes r h),
        accounts_of-v2 upper_runes id (encode v2 ++ space) v2 (key_client ∷ key_portfolios ∷ [])
            space q
            (record {
              fits = fits2;
              reads = read-encode v2 space (v2_document-IsEncodable q k) tt;
              blank = blank;
              has_keys = refl;
            })
            (refl, refl, refl, refl) (v2_document-Decodes q k),
      )
