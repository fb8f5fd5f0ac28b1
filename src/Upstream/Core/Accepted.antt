-- ===== src/Upstream/Core/Accepted.antt =====
-- What is true of the accounts that CoreClient.Accounts returns, under either contract.
use factory_demo.Base.{◌≤◌, List, [], ◌∷◌, ◌≡◌, none, ok, All, length, arith, ◌>>=◌, >>=-eq-ok}
use factory_demo.Text.{Text}
use factory_demo.Domain.Values.{Account}
use factory_demo.Upstream.Wire.{CoreVersion}
use factory_demo.Upstream.Http.{Response, max_response_bytes, read_bounded_body}
use factory_demo.Upstream.Mapping.WellFormed.{
  IsWellFormed, IsStrict, map_core_v1-IsWellFormed, map_core_v2-IsStrict,
}
use factory_demo.Upstream.Core.{
  Json, accounts_of, decode_accounts, detect_core_version, strict_decode_core,
}
use factory_demo.Upstream.Core.Signatures.{read_bounded_body_iff}

All-IsWellFormed : (accounts : List Account) → All IsStrict accounts → All IsWellFormed accounts
All-IsWellFormed [] h = tt
All-IsWellFormed (a ∷ rest) h = (h.0.well_formed, All-IsWellFormed rest h.1)

module _ (json : Json) (u : Text → Text) (id : Text) where
  decode_accounts-IsWellFormed :
      (raw : Text) (version : CoreVersion) (accounts : List Account)
      → decode_accounts json u raw id version ≡ ok accounts
      → All IsWellFormed accounts
  unfolding decode_accounts
  decode_accounts-IsWellFormed raw CoreVersion.v1 accounts e =
      let (payload, _, mapped) = >>=-eq-ok (strict_decode_core json (json.decode_v1 raw)) _ e in
      (map_core_v1-IsWellFormed u payload id accounts mapped).1.2
  decode_accounts-IsWellFormed raw CoreVersion.v2 accounts e =
      let (payload, _, mapped) = >>=-eq-ok (strict_decode_core json (json.decode_v2 raw)) _ e in
      All-IsWellFormed accounts (map_core_v2-IsStrict u payload id accounts mapped).1.2
  decode_accounts-IsWellFormed raw CoreVersion.unknown accounts e = cc

  -- Accounts are returned only from a response with status 200 whose body ended without an error
  -- within a mebibyte, and each of them has an identifier, a type, a currency of three bytes and
  -- symbols that are not empty.
  pub accounts_of-IsWellFormed :
      (response : Response) (accounts : List Account)
      → accounts_of json u id response ≡ ok accounts
      → (response.status_code ≡ 200)
        × (response.body.fault ≡ none)
        × (length response.body.bytes ≤ max_response_bytes)
        × All IsWellFormed accounts
  unfolding accounts_of
  accounts_of-IsWellFormed response accounts e =
      let chain : (read_bounded_body response.body >>= λ raw.
      detect_core_version json raw >>= λ version. decode_accounts json u raw id version)
          ≡ ok accounts =
        ground arith in
      let (raw, was_read, rest) = >>=-eq-ok (read_bounded_body response.body) _ chain in
      let (version, _, decoded) = >>=-eq-ok (detect_core_version json raw) _ rest in
      let (no_fault, short, _) = (read_bounded_body_iff response.body raw).0 was_read in
      (ground arith, no_fault, short, decode_accounts-IsWellFormed raw version accounts decoded)
