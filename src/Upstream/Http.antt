-- ===== src/Upstream/Http.antt =====
-- What internal/upstream/client.go uses of net/http, net/url and io. The network is a parameter; the
-- escaping of URLs and the bounded reader are those of the standard library.
use factory_demo.Base.{
  ℕ, ◌+◌, ◌-◌, ◌/◌, ◌%◌, ◌^◌, [], ◌∷◌, ◌++◌, Bool, ◌||◌, ◌&&◌, Option, none, some, Result, ok, err,
  map_err, ltb, leb, ◌==◌, length, take, if◌then◌else◌,
}
use factory_demo.Text.{Text, codes, is_digit, is_lower, trim_right}
use factory_demo.Failure.{
  Failure, fixed, status, transport, within, Fixed, Service, Context, as_url_error,
}

-- The bytes that a body yields, and the error that ends them, if it is not the end of the body.
pub record Body : Type 0 where
  pub bytes : Text
  pub fault : Option Failure

pub record Response : Type 0 where
  pub status_code : ℕ
  pub body : Body

-- http.Client.Do on a GET request for an endpoint, and the error of http.NewRequestWithContext if it
-- refuses the endpoint.
pub record Network (W : Type 0) : Type 0 where
  pub refuses : Text → Option Failure
  pub send : Text → W → Result Failure Response × W

-- CoreClient and MarketClient hold their base URL; the http.Client is the network.
pub record Client : Type 0 where
  pub base_url : Text

-- NewCoreClient and NewMarketClient.
unfoldable pub new_client : Text → Client
new_client base_url = record { base_url = trim_right b'/' base_url }

abbrev pub max_response_bytes : ℕ
max_response_bytes = 2 ^ 20

-- newTransportError.
unfoldable pub new_transport_error : Service → Failure → Failure
new_transport_error service e = elim (as_url_error e) [
  | none ↦ transport service e
  | some cause ↦ transport service cause
]

-- io.LimitReader: the fault is not met behind the limit.
unfoldable pub limit_reader : ℕ → Body → Body
limit_reader n body =
    if ltb (length body.bytes) n then body else record { bytes = take n body.bytes; fault = none }

-- The tests of readBoundedBody on what the limited reader yields.
unfoldable pub check_bounded : Option Failure → Text → Result Failure Text
check_bounded (some e) raw = err (within Context.read_core_response e)
check_bounded none raw =
    if ltb max_response_bytes (length raw) then err (fixed Fixed.body_too_large) else ok raw

-- readBoundedBody.
unfoldable pub read_bounded_body : Body → Result Failure Text
read_bounded_body body =
    let limited = limit_reader (max_response_bytes + 1) body in
    check_bounded limited.fault limited.bytes

-- responseError. It also drains the body, which changes no result.
abbrev pub response_error : Service → Response → Failure
response_error service response = status service response.status_code

abbrev pub is_unreserved : ℕ → Bool
is_unreserved c =
    is_lower c
    || (leb b'A' c && leb c b'Z')
    || is_digit c
    || c == b'-'
    || c == b'_'
    || c == b'.'
    || c == b'~'

-- What url.PathEscape leaves alone besides.
abbrev pub is_segment : ℕ → Bool
is_segment c =
    is_unreserved c || c == b'$' || c == b'&' || c == b'+' || c == b'=' || c == b':' || c == b'@'

abbrev pub hex_digit : ℕ → ℕ
hex_digit d = if ltb d 10 then b'0' + d else b'A' + (d - 10)

abbrev pub percent : ℕ → Text
percent c = b'%' ∷ hex_digit (c / 16) ∷ hex_digit (c % 16) ∷ []

-- url.PathEscape.
unfoldable pub path_escape : Text → Text
path_escape [] = []
path_escape (c ∷ s) = (if is_segment c then c ∷ [] else percent c) ++ path_escape s

-- url.QueryEscape.
unfoldable pub query_escape : Text → Text
query_escape [] = []
query_escape (c ∷ s) =
    (if is_unreserved c then c ∷ [] else if c == b' ' then b'+' ∷ [] else percent c)
    ++ query_escape s

module _ {W : Type 0} (net : Network W) where
  -- NewRequestWithContext and Do, with the errors that the clients make of theirs.
  unfoldable pub fetch : Context → Service → Text → W → Result Failure Response × W
  unfolding new_transport_error
  fetch create service endpoint w = elim (net.refuses endpoint) [
    | some e ↦ (err (within create e), w)
    | none ↦
        let (answer, w') = net.send endpoint w in (map_err (new_transport_error service) answer, w')
  ]

  -- A health check: any status but 200 is an error.
  unfoldable pub check_health :
      Context → Service → Service → Text → W → Result Failure (Unit {0}) × W
  check_health create service health base_url w =
      let (answer, w') = fetch create service (base_url ++ codes "/health") w in
      elim answer [
        | err e ↦ (err e, w')
        | ok response ↦ (
          if response.status_code == 200 then ok tt else err (response_error health response),
          w',
        )
      ]
