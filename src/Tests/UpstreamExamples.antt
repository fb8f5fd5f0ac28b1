-- ===== src/Tests/UpstreamExamples.antt =====
-- Examples for the theorems on the clients of the upstream services.
use factory_demo.Base.{
  ◌++◌, ℕ, ◌+◌, ◌≤◌, List, [], ◌∷◌, ◌≡◌, ◌≢◌, ◌↔◌, ◌⊎◌, inl, inr, none, some, refl, ok, err, All,
  length, arith, Bool, true, false,
}
use factory_demo.Base.Int.{ℤ, pos}
use factory_demo.Text.{Text, text_eq, codes}
use factory_demo.Failure.{Fixed, fixed}
use factory_demo.Dict.{Dict, lookup}
use factory_demo.Domain.Quantity.Spelling.{Spells}
use factory_demo.Upstream.Wire.{CoreVersion, MarketPrice}
use factory_demo.Upstream.Http.{Client, Body, read_bounded_body, max_response_bytes}
use factory_demo.Upstream.Items.{core_parse_position}
use factory_demo.Upstream.Items.Units.{core_parse_position_strict_iff}
use factory_demo.Upstream.Mapping.{map_core_v1, map_core_v2, client_id}
use factory_demo.Upstream.Mapping.Versions.{response_to_v1, map_core_v1-map_core_v2}
use factory_demo.Upstream.Mapping.WellFormed.{IsWellFormed}
use factory_demo.Upstream.Core.{accounts_endpoint, detect_core_version, accounts_of}
use factory_demo.Upstream.Core.Signatures.{
  HasV1, HasV2, detect_core_version_iff, read_bounded_body_iff,
}
use factory_demo.Upstream.Core.Redaction.{is_core_class, accounts_of-is_core_class}
use factory_demo.Mocks.Routes.{accounts_path, core_entries, accounts_endpoint-core_entries}
use factory_demo.Mocks.Core.{handle_accounts}
use factory_demo.Routing.{Choice, choose}
use factory_demo.Upstream.Core.Accepted.{accounts_of-IsWellFormed}
use factory_demo.Upstream.Market.{prices_of}
use factory_demo.Upstream.Market.Listing.{IsLast, quoted, prices_of-Holds}
use factory_demo.Tests.Fixtures.{
  demo_accounts, demo_prices, demo_v2, demo_json, v2_keys, demo_body, response_of, demo_listing,
  decode_listing, same_runes, quantity_of,
}

core_parse_position_strict_iff_example :
    (core_parse_position (some (codes "AAPL")) (some (codes "10.5")) true
      ≡ ok (record { symbol = codes "AAPL"; quantity = quantity_of 10_500_000 }))
    ↔ ((codes "AAPL" ≢ [])
        × (codes "AAPL" ≡ codes "AAPL")
        × ((n : ℕ) × Spells (codes "10.5") n
            × (n ≤ 9_223_372_036_854_775_807)
            × (quantity_of 10_500_000 ≡ quantity_of n)))
core_parse_position_strict_iff_example =
    core_parse_position_strict_iff (codes "AAPL") (codes "10.5")
      (record { symbol = codes "AAPL"; quantity = quantity_of 10_500_000 })

demo_mapped : map_core_v2 same_runes demo_v2 (codes "cust-1001") ≡ ok demo_accounts
unfolding map_core_v2 factory_demo.Text.text_eq factory_demo.Upstream.Mapping.map_core_v2_portfolio
    factory_demo.Upstream.Items.core_parse_money factory_demo.Upstream.Items.is_core_currency
    factory_demo.Domain.Money.new_money factory_demo.Text.to_upper factory_demo.Text.trim_space
    core_parse_position factory_demo.Upstream.Items.valid_core_v2_quantity
    factory_demo.Text.has_prefix factory_demo.Text.has_suffix
    factory_demo.Upstream.Items.core_v2_quantity_overflows factory_demo.Text.parse_int
    factory_demo.Text.before factory_demo.Text.behind factory_demo.Base.Int.quot
    factory_demo.Base.Int.wrap64 factory_demo.Base.Int.◌*ℤ◌ factory_demo.Base.Int.◌+ℤ◌
    factory_demo.Base.Int.◌-ℤ◌ factory_demo.Domain.Quantity.combine
    factory_demo.Domain.Quantity.from_parts factory_demo.Domain.Quantity.parse_quantity
    factory_demo.Domain.Quantity.parse_trimmed factory_demo.Domain.Quantity.with_fraction
    factory_demo.Text.split factory_demo.Text.split_from factory_demo.Text.parse_digits
    factory_demo.Text.value factory_demo.Text.strip factory_demo.Upstream.Items.exceeds
    factory_demo.Upstream.Items.whole_overflows factory_demo.Upstream.Mapping.is_core_category
demo_mapped = refl

demo_mapped_v1 :
    map_core_v1 same_runes (response_to_v1 demo_v2) (codes "cust-1001") ≡ ok demo_accounts
demo_mapped_v1 =
    map_core_v1-map_core_v2 same_runes demo_v2 (codes "cust-1001") demo_accounts demo_mapped

map_core_v1-map_core_v2_example :
    map_core_v1 same_runes (response_to_v1 demo_v2) (codes "cust-1001") ≡ ok demo_accounts
map_core_v1-map_core_v2_example =
    map_core_v1-map_core_v2 same_runes demo_v2 (codes "cust-1001") demo_accounts demo_mapped

detect_core_version_iff_example :
    ((detect_core_version demo_json (codes "{}") ≡ ok CoreVersion.v1) ↔ HasV1 v2_keys)
    × ((detect_core_version demo_json (codes "{}") ≡ ok CoreVersion.v2) ↔ HasV2 v2_keys)
    × (detect_core_version demo_json (codes "{}") ≢ ok CoreVersion.unknown)
detect_core_version_iff_example = detect_core_version_iff demo_json (codes "{}") v2_keys refl

read_bounded_body_iff_example : (read_bounded_body demo_body ≡ ok (codes "{}")) ↔ (
    (demo_body.fault ≡ none)
    × (length demo_body.bytes ≤ max_response_bytes)
    × (codes "{}" ≡ demo_body.bytes))
read_bounded_body_iff_example = read_bounded_body_iff demo_body (codes "{}")

-- The payload is another customer's.
demo_refused :
    accounts_of demo_json same_runes (codes "cust-1002") (response_of 200)
    ≡ err (fixed Fixed.identity_invalid)
unfolding accounts_of read_bounded_body factory_demo.Upstream.Http.check_bounded
    factory_demo.Upstream.Http.limit_reader detect_core_version factory_demo.Text.text_eq
    factory_demo.Upstream.Core.decode_accounts map_core_v2
demo_refused = refl

accounts_of-is_core_class_example : is_core_class (fixed Fixed.identity_invalid) ≡ true
accounts_of-is_core_class_example =
    accounts_of-is_core_class demo_json same_runes (codes "cust-1002") (response_of 200)
      (fixed Fixed.identity_invalid) refl refl demo_refused

demo_priced : prices_of same_runes decode_listing (response_of 200) ≡ ok demo_prices
unfolding prices_of factory_demo.Upstream.Market.collect_prices
    factory_demo.Upstream.Market.price_of factory_demo.Domain.Money.new_money
    factory_demo.Text.to_upper factory_demo.Text.trim_space factory_demo.Dict.insert
    factory_demo.Text.text_eq
demo_priced = refl

prices_of-Holds_example :
    ((lookup (codes "AAPL") demo_prices ≡ none)
      × All (λ i. i.symbol ≢ codes "AAPL") demo_listing.prices)
    ⊎ ((item : MarketPrice) × IsLast same_runes (codes "AAPL") demo_listing.prices item
        × (lookup (codes "AAPL") demo_prices ≡ some (quoted same_runes item)))
prices_of-Holds_example =
    prices_of-Holds same_runes decode_listing (response_of 200) demo_listing demo_prices refl
      demo_priced (codes "AAPL")

demo_accepted :
    accounts_of demo_json same_runes (codes "cust-1001") (response_of 200) ≡ ok demo_accounts
unfolding accounts_of read_bounded_body factory_demo.Upstream.Http.check_bounded
    factory_demo.Upstream.Http.limit_reader detect_core_version factory_demo.Text.text_eq
    factory_demo.Upstream.Core.decode_accounts
demo_accepted = demo_mapped

accounts_of-IsWellFormed_example :
    ((response_of 200).status_code ≡ 200)
    × (demo_body.fault ≡ none)
    × (length demo_body.bytes ≤ max_response_bytes)
    × All IsWellFormed demo_accounts
accounts_of-IsWellFormed_example =
    accounts_of-IsWellFormed demo_json same_runes (codes "cust-1001") (response_of 200)
      demo_accounts demo_accepted

abbrev core : Client
core = record { base_url = codes "http://localhost:8081" }

accounts_endpoint-core_entries_example :
    (accounts_endpoint demo_json core (codes "a/b?c")
      ≡ codes "http://localhost:8081" ++ accounts_path (codes "a/b?c"))
    × (choose (core_entries (codes "v1")) (codes "GET") (accounts_path (codes "a/b?c"))
        ≡ Choice.handler (handle_accounts (codes "v1") (codes "a/b?c")))
accounts_endpoint-core_entries_example =
    accounts_endpoint-core_entries demo_json core (codes "v1") (codes "a/b?c") (omega arith)
      (unfold text_eq in (refl, refl, refl)) (unfold text_eq in refl)
