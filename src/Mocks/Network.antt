-- ===== src/Mocks/Network.antt =====
-- The mock services of cmd/core-mock and cmd/market-mock as the network that the clients use, at the
-- addresses where the API looks for them when its environment names none.
use factory_demo.Base.{◌≡◌, ap, ◌∙◌, ◌++◌, Option, none, some, Result, ok, err, false}
use factory_demo.Text.{Text, codes, text_eq, before, behind}
use factory_demo.Text.Cut.{cut_prefix, cut_prefix-append, Lacks, before_whole}
use factory_demo.Failure.{Failure}
use factory_demo.Upstream.Http.{Client, Response, Network}
use factory_demo.Upstream.Core.{Json, accounts_endpoint}
use factory_demo.Routing.{Choice, choose}
use factory_demo.Routing.Escapes.{IsName}
use factory_demo.Mocks.{Answer}
use factory_demo.Mocks.Query.{Bytes}
use factory_demo.Mocks.Client.Payloads.{received}
use factory_demo.Mocks.Core.{handle_accounts}
use factory_demo.Mocks.Routes.{
  accounts_path, core_entries, market_entries, accounts_endpoint-core_entries,
}

abbrev pub core_base : Text
core_base = codes "http://localhost:8081"

abbrev pub market_base : Text
market_base = codes "http://localhost:8082"

-- The error of an address that nothing listens at, and of a request that no handler answers: the clients
-- make none of these.
abbrev pub no_answer : Result Failure Response
no_answer = err (Failure.foreign (codes "no answer"))

abbrev pub core_answer : Choice Answer → Result Failure Response
core_answer (Choice.handler answer) = ok (received answer)
core_answer _ = no_answer

abbrev pub market_answer : Text → Choice (Text → Answer) → Result Failure Response
market_answer query (Choice.handler endpoint) = ok (received (endpoint query))
market_answer query _ = no_answer

abbrev pub market_send : Option Text → Result Failure Response
market_send none = no_answer
market_send (some target) =
    market_answer (behind b'?' target) (choose market_entries (codes "GET") (before b'?' target))

abbrev pub core_send : Text → Text → Option Text → Result Failure Response
core_send version endpoint none = market_send (cut_prefix market_base endpoint)
core_send version endpoint (some target) =
    core_answer (choose (core_entries version) (codes "GET") (before b'?' target))

unfoldable pub mock_network : Text → Network (Unit {0})
unfolding cut_prefix core_entries market_entries choose before behind
mock_network version = record {
  refuses = λ endpoint. none;
  send = λ endpoint w. (core_send version endpoint (cut_prefix core_base endpoint), w);
}

-- The mock's answer to the Core client.
pub send-accounts :
    (json : Json) (client : Client) (version id : Text)
    → client.base_url ≡ core_base
    → Bytes id
    → IsName id
    → text_eq id (codes "/") ≡ false
    → Lacks b'?' (accounts_path id)
    → (mock_network version).send (accounts_endpoint json client id) tt
      ≡ (ok (received (handle_accounts version id)), tt)
send-accounts json client version id base h n s q =
    let (endpoint, reached) = accounts_endpoint-core_entries json client version id h n s in
    let target = accounts_path id in
    let asked : accounts_endpoint json client id ≡ core_base ++ target =
      endpoint ∙ ap (λ b. b ++ target) base in
    let sent : core_send version (core_base ++ target) (cut_prefix core_base (core_base ++ target))
        ≡ ok (received (handle_accounts version id)) =
      ap (core_send version (core_base ++ target)) (cut_prefix-append core_base target)
      ∙ ap (λ path. core_answer (choose (core_entries version) (codes "GET") path))
          (before_whole b'?' target q)
      ∙ ap core_answer reached in
    ap (λ e. (mock_network version).send e tt) asked ∙ unfold mock_network in ap (λ r. (r, tt)) sent
