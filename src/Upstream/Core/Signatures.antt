-- ===== src/Upstream/Core/Signatures.antt =====
-- Which envelopes detectCoreVersion takes for which contract, and which bodies it gets to see.
use mathlib.Core.Path.{subst}
use native.Mathlib.Decide.{dec_lt}
use factory_demo.Base.{
  ◌<◌, length-take, ℕ, ◌+◌, ◌≤◌, List, ◌≡◌, ◌≢◌, ◌↔◌, sym, ap, Option, some, none, Bool, true,
  false, ok, arith, length,
}
use factory_demo.Text.{Text}
use factory_demo.Failure.{Failure}
use factory_demo.Upstream.Wire.{CoreVersion}
use factory_demo.Upstream.Http.{
  Body, max_response_bytes, limit_reader, check_bounded, read_bounded_body,
}
use factory_demo.Upstream.Core.{
  Json, has_key, key_customer_id, key_accounts, key_client, key_portfolios, classify,
  detect_core_version,
}

-- All members of one contract, and none of the other.
abbrev pub HasV1 : List Text → Type 0
HasV1 keys =
    (has_key keys key_customer_id ≡ true)
    × (has_key keys key_accounts ≡ true)
    × (has_key keys key_client ≡ false)
    × (has_key keys key_portfolios ≡ false)

abbrev pub HasV2 : List Text → Type 0
HasV2 keys =
    (has_key keys key_customer_id ≡ false)
    × (has_key keys key_accounts ≡ false)
    × (has_key keys key_client ≡ true)
    × (has_key keys key_portfolios ≡ true)

classify_iff :
    (a b c d : Bool)
    → ((classify a b c d ≡ ok CoreVersion.v1)
        ↔ ((a ≡ true) × (b ≡ true) × (c ≡ false) × (d ≡ false)))
      × ((classify a b c d ≡ ok CoreVersion.v2)
          ↔ ((a ≡ false) × (b ≡ false) × (c ≡ true) × (d ≡ true)))
      × (classify a b c d ≢ ok CoreVersion.unknown)
unfolding classify
classify_iff a b c d = ground arith

-- An envelope whose member names can be read is of the first or the second version exactly when it
-- has both members of that version's contract and none of the other's, and it is never of the
-- unknown version.
pub detect_core_version_iff :
    (json : Json) (raw : Text) (keys : List Text)
    → json.top_keys raw ≡ some keys
    → ((detect_core_version json raw ≡ ok CoreVersion.v1) ↔ HasV1 keys)
      × ((detect_core_version json raw ≡ ok CoreVersion.v2) ↔ HasV2 keys)
      × (detect_core_version json raw ≢ ok CoreVersion.unknown)
unfolding detect_core_version
detect_core_version_iff json raw keys h = rw h (
    classify_iff (has_key keys key_customer_id) (has_key keys key_accounts)
      (has_key keys key_client) (has_key keys key_portfolios))

limit_reader_short : (n : ℕ) (body : Body) → length body.bytes < n → limit_reader n body ≡ body
unfolding limit_reader
limit_reader_short n body h = ground arith

limit_reader_long :
    (n : ℕ) (body : Body)
    → n ≤ length body.bytes
    → ((limit_reader n body).fault ≡ none) × (length (limit_reader n body).bytes ≡ n)
unfolding limit_reader
limit_reader_long n body h = ground (arith, length-take n body.bytes)

check_bounded_long :
    (fault : Option Failure) (raw t : Text)
    → max_response_bytes < length raw
    → check_bounded fault raw ≢ ok t
unfolding check_bounded
check_bounded_long none raw t h = ground arith
check_bounded_long (some e) raw t h = ground arith

check_bounded_iff :
    (fault : Option Failure) (raw t : Text)
    → (check_bounded fault raw ≡ ok t)
      ↔ ((fault ≡ none) × (length raw ≤ max_response_bytes) × (t ≡ raw))
unfolding check_bounded
check_bounded_iff none raw t = ground arith
check_bounded_iff (some e) raw t = ground arith

read_short :
    (body : Body)
    → length body.bytes < max_response_bytes + 1
    → read_bounded_body body ≡ check_bounded body.fault body.bytes
unfolding read_bounded_body
read_short body h =
    ap (λ (b : Body). check_bounded b.fault b.bytes)
      (limit_reader_short (max_response_bytes + 1) body h)

-- A body is read exactly when it ends without an error and is at most a mebibyte long, and then it
-- is read whole.
pub read_bounded_body_iff :
    (body : Body) (raw : Text)
    → (read_bounded_body body ≡ ok raw)
      ↔ ((body.fault ≡ none) × (length body.bytes ≤ max_response_bytes) × (raw ≡ body.bytes))
unfolding read_bounded_body
read_bounded_body_iff body raw = elim (dec_lt (length body.bytes) (max_response_bytes + 1)) [
  | yes fits ↦
      subst
        (λ r.
          (r ≡ ok raw)
          ↔ ((body.fault ≡ none) × (length body.bytes ≤ max_response_bytes) × (raw ≡ body.bytes)))
        (sym (read_short body fits)) (check_bounded_iff body.fault body.bytes raw)
  | no long ↦
      let limited = limit_reader (max_response_bytes + 1) body in
      (
        λ e. absurd (
            check_bounded_long limited.fault limited.bytes raw
              (omega (arith, (limit_reader_long (max_response_bytes + 1) body (omega arith)).1)) e),
        λ (_, small, _). absurd (omega arith),
      )
]
