-- ===== src/Mocks/Client/Payloads.antt =====
-- The payloads of cmd/core-mock as they are written, read and decoded.
use factory_demo.Base.{ℕ, ◌*◌, ◌≤◌, length, List, [], ◌∷◌, ◌≡◌, refl, none, some, arith}
use factory_demo.Base.Int.{pos}
use factory_demo.Text.{Text, codes, text_eq}
use factory_demo.Domain.Values.{Account}
use factory_demo.Upstream.Http.{Response, max_response_bytes}
use factory_demo.Json.Scanner.{read}
use factory_demo.Json.Structs.{read_struct, read_int}
use factory_demo.Upstream.Decoding.{
  set_v1_response, no_v1_response, set_v2_response, no_v2_response,
}
use factory_demo.Upstream.Wire.{
  CoreV1Response, CoreV1Account, CoreV1Position, CoreV2Response, CoreV2Portfolio,
}
use factory_demo.Mocks.{Answer}
use factory_demo.Mocks.Encoding.{marshal, written}
use factory_demo.Mocks.Core.{handle_accounts, v1_response, v2_response}

-- An answer as the client receives it.
unfoldable pub received : Answer → Response
unfolding written
received answer = record {
  status_code = answer.status;
  body = record { bytes = written answer; fault = none };
}

abbrev mock_account : Text → Text → ℕ → Text → ℕ → Account
mock_account id type minor symbol units = record {
  id = id;
  type = type;
  cash = record { minor = pos minor; currency = codes "USD" };
  positions =
      record { symbol = symbol; quantity = record { millionths = pos (units * 1_000_000) } } ∷ [];
}

-- The accounts of the mock's customer, the same under both contracts.
abbrev pub mock_accounts : List Account
mock_accounts =
    mock_account (codes "acct-brokerage-01") (codes "BROKERAGE") 250_000 (codes "AAPL") 100
    ∷ mock_account (codes "acct-retirement-01") (codes "RETIREMENT") 260_000 (codes "BND") 200
    ∷ []

abbrev pub line_feed : Text
line_feed = b'\n' ∷ []

abbrev pub v1_text : Text
v1_text = written (handle_accounts (codes "v1") (codes "cust-1001"))

abbrev pub v2_text : Text
v2_text = written (handle_accounts (codes "v2") (codes "cust-1001"))

-- What the decoder makes of the payloads of the mock.
abbrev v1_position_of : Text → Text → CoreV1Position
v1_position_of symbol quantity = record { symbol = some symbol; quantity = some quantity }

abbrev v1_account_of : Text → Text → ℕ → Text → Text → CoreV1Account
v1_account_of id type minor symbol quantity = record {
  account_id = some id;
  account_type = some type;
  cash_balance = some (record { amount_minor = some (pos minor); currency = some (codes "USD") });
  positions = some (v1_position_of symbol quantity ∷ []);
}

abbrev pub v1_payload : CoreV1Response
v1_payload = record {
  customer_id = some (codes "cust-1001");
  accounts = some (
      v1_account_of (codes "acct-brokerage-01") (codes "BROKERAGE") 250_000 (codes "AAPL")
        (codes "100")
      ∷ v1_account_of (codes "acct-retirement-01") (codes "RETIREMENT") 260_000 (codes "BND")
          (codes "200")
      ∷ []);
}

abbrev v2_portfolio_of : Text → Text → ℕ → Text → Text → CoreV2Portfolio
v2_portfolio_of id category minor ticker units = record {
  id = some id;
  category = some category;
  balances = some (record {
    cash = some (record { minor_units = some (pos minor); currency_code = some (codes "USD") });
  });
  assets = some (record { ticker = some ticker; units = some units } ∷ []);
}

abbrev pub v2_payload : CoreV2Response
v2_payload = record {
  client = some (record { id = some (codes "cust-1001") });
  portfolios = some (
      v2_portfolio_of (codes "acct-brokerage-01") (codes "BROKERAGE") 250_000 (codes "AAPL")
        (codes "100")
      ∷ v2_portfolio_of (codes "acct-retirement-01") (codes "RETIREMENT") 260_000 (codes "BND")
          (codes "200")
      ∷ []);
}

pub v2_read : read v2_text ≡ some (marshal v2_response, line_feed)
unfolding read written handle_accounts text_eq
v2_read = refl

pub v2_decoded : read_struct set_v2_response (marshal v2_response) no_v2_response ≡ some v2_payload
unfolding set_v2_response marshal read_int
v2_decoded = refl

pub v1_read : read v1_text ≡ some (marshal v1_response, line_feed)
unfolding read written handle_accounts text_eq
v1_read = refl

pub v1_fits : length v1_text ≤ max_response_bytes
unfolding written handle_accounts text_eq
v1_fits = ground arith

pub v2_fits : length v2_text ≤ max_response_bytes
unfolding written handle_accounts text_eq
v2_fits = ground arith

pub v1_decoded : read_struct set_v1_response (marshal v1_response) no_v1_response ≡ some v1_payload
unfolding set_v1_response marshal read_int
v1_decoded = refl
