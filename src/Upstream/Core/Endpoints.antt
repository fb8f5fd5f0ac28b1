-- ===== src/Upstream/Core/Endpoints.antt =====
-- The endpoint that CoreClient.Accounts of internal/upstream/client.go asks for a customer.
use factory_demo.Base.{
  ℕ, ◌<◌, ◌/◌, ◌%◌, [], ◌∷◌, ◌++◌, ◌≡◌, ◌≢◌, refl, sym, ap, ◌∙◌, true, Bool-cases, inl, inr, All,
  All-append, arith, if◌then◌else◌,
}
use factory_demo.Text.{Text, codes}
use factory_demo.Text.Digits.{IsDigit}
use factory_demo.Upstream.Http.{Client, path_escape, percent, hex_digit, is_segment}
use factory_demo.Upstream.Core.{Json, accounts_endpoint}
use factory_demo.HttpApi.Identifier.{IsCustomerId}

-- A byte that stands for itself or for an escape inside one segment of a path.
abbrev pub IsSegmentByte : ℕ → Type 0
IsSegmentByte c = (c ≢ b'/') × (c ≢ b'?') × (c ≢ b'#')

hex_digit-IsSegmentByte : (d : ℕ) → d < 16 → IsSegmentByte (hex_digit d)
hex_digit-IsSegmentByte d h = ground arith

is_segment-IsSegmentByte : (c : ℕ) → is_segment c ≡ true → IsSegmentByte c
is_segment-IsSegmentByte c h = ground arith

-- What PathEscape writes for one byte.
abbrev escaped : ℕ → Text
escaped c = if is_segment c then c ∷ [] else percent c

escaped-IsSegmentByte : (c : ℕ) → c < 256 → All IsSegmentByte (escaped c)
escaped-IsSegmentByte c h = elim (Bool-cases (is_segment c)) [
  | inl plain ↦ rw plain (is_segment-IsSegmentByte c plain, tt)
  | inr other ↦ rw other (
    omega arith,
    (
      hex_digit-IsSegmentByte (c / 16) (omega arith),
      (hex_digit-IsSegmentByte (c % 16) (omega arith), tt),
    ),
  )
]

pub path_escape-IsSegmentByte :
    (s : Text) → All (λ c. c < 256) s → All IsSegmentByte (path_escape s)
unfolding path_escape
path_escape-IsSegmentByte [] h = tt
path_escape-IsSegmentByte (c ∷ s) h =
    All-append IsSegmentByte (escaped c) (path_escape s) (escaped-IsSegmentByte c h.0)
      (path_escape-IsSegmentByte s h.1)

path_escape_plain : (s : Text) → All (λ c. is_segment c ≡ true) s → path_escape s ≡ s
unfolding path_escape
path_escape_plain [] h = refl
path_escape_plain (c ∷ s) h = ground (arith, path_escape_plain s h.1)

digits_plain : (s : Text) → All IsDigit s → All (λ c. is_segment c ≡ true) s
digits_plain [] h = tt
digits_plain (c ∷ s) h = (ground arith, digits_plain s h.1)

path_escape-IsCustomerId : (id : Text) → IsCustomerId id → path_escape id ≡ id
path_escape-IsCustomerId id i =
    let plain : All (λ c. is_segment c ≡ true) (codes "cust-" ++ i.number) =
      All-append (λ c. is_segment c ≡ true) (codes "cust-") i.number (ground arith)
        (digits_plain i.number i.number-IsDigit) in
    ap path_escape i.shape ∙ path_escape_plain (codes "cust-" ++ i.number) plain ∙ sym i.shape

-- Whatever bytes the text of a customer has, the Core client asks an endpoint in which it is one
-- segment of the path, with no slash and no start of a query or a fragment; and an identifier of a
-- customer stands there as it is.
pub accounts_endpoint_lem :
    (json : Json) (client : Client) (id : Text)
    → All (λ c. c < 256) id
    → (segment : Text) × (accounts_endpoint json client id
        ≡ client.base_url ++ (codes "/v1/customers/" ++ (segment ++ codes "/accounts")))
      × All IsSegmentByte segment
      × (IsCustomerId id → segment ≡ id)
accounts_endpoint_lem json client id h =
    (path_escape id, refl, path_escape-IsSegmentByte id h, path_escape-IsCustomerId id)
