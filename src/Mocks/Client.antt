-- ===== src/Mocks/Client.antt =====
-- The Core client of internal/upstream/client.go on the answers of cmd/core-mock.
pub mod Payloads
use factory_demo.Base.{
  ℕ, ◌*◌, ◌≤◌, length, List, [], ◌∷◌, ◌≡◌, ◌≢◌, ◌⊎◌, inl, inr, refl, ap, ◌∙◌, none, some,
  Bool-cases, false, ok, err, arith,
}
use mathlib.Core.Path.{subst}
use factory_demo.Base.Int.{pos, wrap64, ◌+ℤ◌, ◌*ℤ◌, quot, ◌-ℤ◌}
use factory_demo.Text.{
  Text, codes, text_eq, to_upper, trim_space, split, has_prefix, parse_int, has_suffix, before,
  behind,
}
use factory_demo.Text.Order.{text_eq_iff}
use factory_demo.Failure.{sentinel, Sentinel}
use factory_demo.Domain.Values.{Account}
use factory_demo.Upstream.Http.{Response, max_response_bytes}
use factory_demo.Json.{skip_space}
use factory_demo.Upstream.Decoding.Accounts.{response_with, accounts_of-v1, accounts_of-v2}
use factory_demo.Upstream.Core.{accounts_of}
use factory_demo.Json.Scanner.{read}
use factory_demo.Json.Structs.{read_struct, read_int}
use factory_demo.Upstream.Decoding.{
  go_json, set_v1_response, no_v1_response, set_v2_response, no_v2_response,
}
use factory_demo.Upstream.Wire.{
  CoreV1Response, CoreV1Account, CoreV1Position, CoreV2Response, CoreV2Portfolio,
}
use factory_demo.Domain.Money.{new_money}
use factory_demo.Upstream.Mapping.{
  map_core_v1, map_core_v1_account, map_core_v2, map_core_v2_portfolio,
}
use factory_demo.Upstream.Items.{
  core_parse_money, core_parse_position, is_core_currency, valid_core_v2_quantity,
  core_v2_quantity_overflows,
}
use factory_demo.Domain.Quantity.{parse_quantity, parse_trimmed, from_parts, with_fraction, combine}
use factory_demo.Mocks.{Answer}
use factory_demo.Mocks.Encoding.{marshal, written}
use factory_demo.Mocks.Core.{
  parse_contract_version, parse_contract_version-ok, handle_accounts, v1_response, v2_response,
}
use factory_demo.Mocks.Client.Payloads.{
  received, mock_accounts, line_feed, v1_text, v2_text, v1_payload, v2_payload, v2_read, v2_decoded,
  v1_read, v1_fits, v2_fits, v1_decoded,
}

module _ (upper_runes : Text → Text) where
  v1_mapped : map_core_v1 upper_runes v1_payload (codes "cust-1001") ≡ ok mock_accounts
  unfolding map_core_v1 map_core_v1_account core_parse_money new_money to_upper trim_space
      core_parse_position parse_quantity parse_trimmed from_parts with_fraction combine split
      text_eq has_prefix parse_int wrap64 ◌+ℤ◌ ◌*ℤ◌
  v1_mapped = refl

  v2_mapped : map_core_v2 upper_runes v2_payload (codes "cust-1001") ≡ ok mock_accounts
  unfolding map_core_v2 map_core_v2_portfolio core_parse_money is_core_currency new_money to_upper
      trim_space core_parse_position valid_core_v2_quantity core_v2_quantity_overflows
      parse_quantity parse_trimmed from_parts with_fraction combine split text_eq has_prefix
      parse_int wrap64 ◌+ℤ◌ ◌*ℤ◌ has_suffix before behind quot ◌-ℤ◌
  v2_mapped = refl

  v1_accounts :
      accounts_of go_json upper_runes (codes "cust-1001") (response_with v1_text) ≡ ok mock_accounts
  unfolding marshal text_eq
  v1_accounts =
      accounts_of-v1 upper_runes (codes "cust-1001") v1_text (marshal v1_response)
        (codes "accounts" ∷ codes "customer_id" ∷ []) line_feed v1_payload
        (record {
          fits = v1_fits;
          reads = v1_read;
          blank = unfold skip_space in refl;
          has_keys = refl;
        })
        (refl, refl, refl, refl) v1_decoded
      ∙ v1_mapped

  v2_accounts :
      accounts_of go_json upper_runes (codes "cust-1001") (response_with v2_text) ≡ ok mock_accounts
  unfolding marshal text_eq
  v2_accounts =
      accounts_of-v2 upper_runes (codes "cust-1001") v2_text (marshal v2_response)
        (codes "client" ∷ codes "portfolios" ∷ []) line_feed v2_payload
        (record {
          fits = v2_fits;
          reads = v2_read;
          blank = unfold skip_space in refl;
          has_keys = refl;
        })
        (refl, refl, refl, refl) v2_decoded
      ∙ v2_mapped

  -- The two texts that parseContractVersion accepts.
  accepted :
      (quote : Text → Text) (value version : Text)
      → parse_contract_version quote value ≡ ok version
      → (version ≡ codes "v1") ⊎ (version ≡ codes "v2")
  unfolding parse_contract_version
  accepted quote value version h =
      let same = parse_contract_version-ok quote value version h in
      elim (Bool-cases (text_eq version (codes "v1"))) [
        | inl first ↦ inl ((text_eq_iff version (codes "v1")).0 first)
        | inr other ↦ elim (Bool-cases (text_eq version (codes "v2"))) [
          | inl second ↦ inr ((text_eq_iff version (codes "v2")).0 second)
          | inr neither ↦ absurd (
              ground (
                arith,
                subst (λ v. parse_contract_version quote v ≡ ok version) same h,
                other,
                neither,
              ))
        ]
      ]

  known_accounts :
      (version : Text)
      → (version ≡ codes "v1") ⊎ (version ≡ codes "v2")
      → accounts_of go_json upper_runes
          (codes "cust-1001")
          (received (handle_accounts version (codes "cust-1001")))
        ≡ ok mock_accounts
  unfolding received handle_accounts text_eq
  known_accounts version (inl first) =
      ap
        (λ v.
          accounts_of go_json upper_runes (codes "cust-1001")
            (received (handle_accounts v (codes "cust-1001"))))
        first
      ∙ v1_accounts
  known_accounts version (inr second) =
      ap
        (λ v.
          accounts_of go_json upper_runes (codes "cust-1001")
            (received (handle_accounts v (codes "cust-1001"))))
        second
      ∙ v2_accounts

  unknown_customer :
      (version id : Text)
      → text_eq id (codes "cust-1001") ≡ false
      → accounts_of go_json upper_runes id (received (handle_accounts version id))
        ≡ err (sentinel Sentinel.customer_not_found)
  unfolding received handle_accounts accounts_of
  unknown_customer version id h = rw h refl

  -- Under each contract version that the mock accepts, the Core client reads the same two accounts from
  -- the mock's answer for its one customer, and reports a missing customer for any other identifier.
  pub accounts_of-handle_accounts :
      (quote : Text → Text) (value version id : Text)
      → parse_contract_version quote value ≡ ok version
      → ((id ≡ codes "cust-1001")
          × (accounts_of go_json upper_runes id (received (handle_accounts version id))
              ≡ ok mock_accounts))
        ⊎ ((id ≢ codes "cust-1001")
            × (accounts_of go_json upper_runes id (received (handle_accounts version id))
                ≡ err (sentinel Sentinel.customer_not_found)))
  accounts_of-handle_accounts quote value version id h =
      elim (Bool-cases (text_eq id (codes "cust-1001"))) [
        | inl known ↦
            let same = (text_eq_iff id (codes "cust-1001")).0 known in
            inl (same, rw same (known_accounts version (accepted quote value version h)))
        | inr other ↦ inr (
          λ e. cc (other, (text_eq_iff id (codes "cust-1001")).1 e),
          unknown_customer version id other,
        )
      ]
