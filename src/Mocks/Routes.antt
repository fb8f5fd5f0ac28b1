-- ===== src/Mocks/Routes.antt =====
-- The patterns of newHandler of cmd/core-mock/main.go and cmd/market-mock/main.go.
use factory_demo.Base.{List, [], ◌∷◌, ◌++◌, ◌≡◌, refl, ap, ◌∙◌, some, false, arith, All}
use factory_demo.Text.{Text, codes, text_eq, is_empty, join}
use factory_demo.Upstream.Http.{Client, path_escape}
use factory_demo.Upstream.Core.{Json, accounts_endpoint}
use factory_demo.Routing.{
  Part, Entry, Choice, choose, lookup, matched, unescaped, decode_from, add_value,
}
use factory_demo.Routing.Matches.{
  matched-literal, matched-wildcard, matched_other, lookup_first, lookup_behind,
}
use factory_demo.Routing.Paths.{IsPlainSegment, path_of, choose-path_of}
use factory_demo.Routing.Escapes.{IsName, unescaped-path_escape, path_escape-IsPlainSegment}
use factory_demo.Mocks.{Answer}
use factory_demo.Mocks.Query.{Bytes}
use factory_demo.Mocks.Core.{handle_accounts}
use factory_demo.Mocks.Core as core
use factory_demo.Mocks.Market as market

-- request.PathValue of the only wildcard.
abbrev only_value : List Text → Text
only_value [] = []
only_value (t ∷ _) = t

unfoldable pub core_entries : Text → List (Entry Answer)
core_entries version =
    record {
      parts = Part.literal (codes "health") ∷ [];
      endpoint = λ values. core.handle_health version;
    }
    ∷ record {
      parts =
          Part.literal (codes "v1")
          ∷ Part.literal (codes "customers")
          ∷ Part.wildcard
          ∷ Part.literal (codes "accounts")
          ∷ [];
      endpoint = λ values. handle_accounts version (only_value values);
    }
    ∷ []

-- The endpoints of the market mock by the query of the request.
unfoldable pub market_entries : List (Entry (Text → Answer))
market_entries =
    record {
      parts = Part.literal (codes "health") ∷ [];
      endpoint = λ values query. market.handle_health;
    }
    ∷ record {
      parts = Part.literal (codes "v1") ∷ Part.literal (codes "prices") ∷ [];
      endpoint = λ values. market.handle_prices;
    }
    ∷ []

-- The path that the Core client asks for.
abbrev pub accounts_path : Text → Text
accounts_path id = path_of (codes "v1" ∷ codes "customers" ∷ path_escape id ∷ codes "accounts" ∷ [])

accounts_segments :
    (id : Text)
    → Bytes id
    → IsName id
    → All IsPlainSegment (codes "v1" ∷ codes "customers" ∷ path_escape id ∷ codes "accounts" ∷ [])
unfolding text_eq
accounts_segments id h n = (
  record { filled = refl; no_dot = refl; no_dots = refl; no_slash = ground arith },
  (
    record { filled = refl; no_dot = refl; no_dots = refl; no_slash = ground arith },
    (
      path_escape-IsPlainSegment id h n,
      (record { filled = refl; no_dot = refl; no_dots = refl; no_slash = ground arith }, tt),
    ),
  ),
)

-- Literals without escapes stand for themselves.
literals_unescaped :
    (unescaped (codes "v1") ≡ codes "v1")
    × (unescaped (codes "customers") ≡ codes "customers")
    × (unescaped (codes "accounts") ≡ codes "accounts")
unfolding unescaped decode_from
literals_unescaped = (refl, refl, refl)

lookup_accounts :
    (version e id : Text)
    → is_empty e ≡ false
    → unescaped e ≡ id
    → text_eq id (codes "/") ≡ false
    → lookup (core_entries version) (codes "v1" ∷ codes "customers" ∷ e ∷ codes "accounts" ∷ [])
      ≡ some (handle_accounts version id)
unfolding core_entries
lookup_accounts version e id f u s =
    let (v, c, a) = literals_unescaped in
    let ss = codes "v1" ∷ codes "customers" ∷ e ∷ codes "accounts" ∷ [] in
    let behind = Part.wildcard ∷ Part.literal (codes "accounts") ∷ [] in
    let last : matched (Part.literal (codes "accounts") ∷ []) (codes "accounts" ∷ []) ≡ some [] =
      matched-literal (codes "accounts") [] [] a ∙ unfold matched in refl in
    let all : matched (Part.literal (codes "v1") ∷ Part.literal (codes "customers") ∷ behind) ss
        ≡ some (id ∷ []) =
      matched-literal (codes "v1") (Part.literal (codes "customers") ∷ behind)
        (codes "customers" ∷ e ∷ codes "accounts" ∷ []) v
      ∙ matched-literal (codes "customers") behind (e ∷ codes "accounts" ∷ []) c
      ∙ matched-wildcard e id (Part.literal (codes "accounts") ∷ []) (codes "accounts" ∷ []) f u s
      ∙ ap (add_value id) last in
    lookup_behind _ _ ss (
      matched_other (codes "health") (codes "v1") [] _
        (unfold unescaped decode_from text_eq in refl))
    ∙ lookup_first _ [] ss (id ∷ []) all

-- The request of the Core client for the accounts of a customer reaches the accounts handler of the Core
-- mock with the very identifier that was asked for, for each text of bytes that is not empty, ".", ".."
-- or "/"; the endpoint is the base URL with the path of that request.
pub accounts_endpoint-core_entries :
    (json : Json) (client : Client) (version id : Text)
    → Bytes id
    → IsName id
    → text_eq id (codes "/") ≡ false
    → (accounts_endpoint json client id ≡ client.base_url ++ accounts_path id)
      × (choose (core_entries version) (codes "GET") (accounts_path id)
          ≡ Choice.handler (handle_accounts version id))
accounts_endpoint-core_entries json client version id h n s = (
  unfold join in refl,
  choose-path_of (core_entries version) (codes "v1")
      (codes "customers" ∷ path_escape id ∷ codes "accounts" ∷ []) (handle_accounts version id)
      (accounts_segments id h n)
      (lookup_accounts version (path_escape id) id (path_escape-IsPlainSegment id h n).filled
        (unescaped-path_escape id h) s),
)

-- The paths of the clients' other requests reach the handlers of health and of prices.
paths-entries :
    (version : Text)
    → (choose (core_entries version) (codes "GET") (codes "/health")
        ≡ Choice.handler (core.handle_health version))
      × (choose market_entries (codes "GET") (codes "/health")
          ≡ Choice.handler (λ query. market.handle_health))
      × (choose market_entries (codes "GET") (codes "/v1/prices")
          ≡ Choice.handler market.handle_prices)
unfolding choose core_entries market_entries join
paths-entries version = (refl, refl, refl)
