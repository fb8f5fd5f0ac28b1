-- ===== src/Upstream/Decoding/Payloads.antt =====
-- Core responses from their text to the accounts of a customer.
use factory_demo.Base.{
  ◌++◌, ◌≡◌, ◌≢◌, refl, ap, Option, none, some, Option-cases, Bool-cases, true, inl, inr, ok, err,
}
use factory_demo.Text.{Text, is_empty}
use factory_demo.Failure.{fixed, Fixed}
use factory_demo.Json.{Value, skip_space}
use factory_demo.Json.Scanner.{read}
use factory_demo.Json.Encoder.{encode}
use factory_demo.Json.RoundTrip.Nested.{read-encode}
use factory_demo.Json.Structs.{read_struct, decode}
use factory_demo.Upstream.Wire.{CoreV1Response, CoreV2Response, CoreVersion}
use factory_demo.Upstream.Core.{classify_keys, detect_core_version, strict_decode_core}
use factory_demo.Upstream.Decoding.{
  go_json, top_keys, set_v1_response, no_v1_response, set_v2_response, no_v2_response,
}
use factory_demo.Upstream.Decoding.Documents.{v1_document, v2_document, IsPlain1, IsPlain2}
use factory_demo.Upstream.Decoding.RoundTrip.{v1_document-Decodes, v2_document-Decodes}
use factory_demo.Upstream.Decoding.Encodable.{v1_document-IsEncodable, v2_document-IsEncodable}

-- A v1 payload is decoded from its document, and a v2 payload from its own, whatever follows it; where
-- the texts are ASCII and the amounts fit in an int64.
pub decode-document :
    (r : CoreV1Response) (q : CoreV2Response) (rest : Text)
    → IsPlain1 r
    → IsPlain2 q
    → (go_json.decode_v1 (encode (v1_document r) ++ rest) ≡ some (r, rest))
      × (go_json.decode_v2 (encode (v2_document q) ++ rest) ≡ some (q, rest))
unfolding go_json decode
decode-document r q rest h k = (
  rw (read-encode (v1_document r) rest (v1_document-IsEncodable r h) (unfold v1_document in tt))
      (rw (v1_document-Decodes r h) refl),
  rw (read-encode (v2_document q) rest (v2_document-IsEncodable q k) (unfold v2_document in tt))
      (rw (v2_document-Decodes q k) refl),
)

decode-keys :
    (raw : Text)
    → top_keys raw ≢ none
    → (rest : Text) × (is_empty (skip_space rest) ≡ true)
      × ((v : Value) × (read raw ≡ some (v, rest)))
unfolding top_keys
decode-keys raw h = elim (Option-cases (read raw)) [
  | inl e ↦ absurd (h (rw e refl))
  | inr ((v, rest), e) ↦ elim (Bool-cases (is_empty (skip_space rest))) [
    | inl s ↦ (rest, s, (v, e))
    | inr s ↦ absurd (h (rw e (rw s refl)))
  ]
]

top_keys-detected :
    (raw : Text) (version : CoreVersion)
    → detect_core_version go_json raw ≡ ok version
    → top_keys raw ≢ none
unfolding detect_core_version go_json
top_keys-detected raw version h k =
    let failed : classify_keys (top_keys raw) ≡ err (fixed Fixed.envelope_decode) =
      ap classify_keys k in
    absurd (cc (h, failed))

decoded_whole :
    {A : Type 0} (set : Text → Value → A → Option A) (fresh : A) (raw rest : Text) (v : Value)
    → read raw ≡ some (v, rest)
    → is_empty (skip_space rest) ≡ true
    → strict_decode_core go_json (decode set fresh raw) ≢ err (fixed Fixed.trailing_data)
unfolding go_json decode
decoded_whole set fresh raw rest v h k e = elim (Option-cases (read_struct set v fresh)) [
  | inl f ↦
      let strict : strict_decode_core go_json (decode set fresh raw)
          ≡ err (fixed Fixed.strict_decode) =
        rw h (rw f refl) in
      cc (e, strict)
  | inr (a, f) ↦
      let read_all : strict_decode_core go_json (decode set fresh raw) ≡ ok a =
        rw h (rw f (rw k refl)) in
      cc (e, read_all)
]

-- Where detectCoreVersion finds a version in a body, strictDecodeCore never reports trailing data: the
-- envelope was read up to the end of the body.
pub detect_core_version-strict_decode_core :
    (raw : Text) (version : CoreVersion)
    → detect_core_version go_json raw ≡ ok version
    → (strict_decode_core go_json (go_json.decode_v1 raw) ≢ err (fixed Fixed.trailing_data))
      × (strict_decode_core go_json (go_json.decode_v2 raw) ≢ err (fixed Fixed.trailing_data))
unfolding go_json decode
detect_core_version-strict_decode_core raw version h =
    let (rest, k, (v, e)) = decode-keys raw (top_keys-detected raw version h) in
    (
      decoded_whole set_v1_response no_v1_response raw rest v e k,
      decoded_whole set_v2_response no_v2_response raw rest v e k,
    )
