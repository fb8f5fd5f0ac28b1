-- ===== src/Deployment/Outcomes.antt =====
-- What the assembled program answers, from the responses of its upstream services.
use factory_demo.Base.{List, ◌≡◌, ◌↔◌, ap, ◌∙◌, some, none, false, ok, arith, ◌==◌}
use factory_demo.Text.{Text}
use factory_demo.Failure.{Sentinel, fails_with}
use factory_demo.Portfolio.Service.{get}
use factory_demo.Portfolio.Service.Failures.{get-fails_with_not_found}
use factory_demo.Observability.Metrics.{Float}
use factory_demo.Upstream.Http.{Body, Response, fetch}
use factory_demo.Upstream.Core.{accounts, accounts_of, accounts_endpoint}
use factory_demo.Upstream.Core.Statuses.{accounts_of-fails_with_not_found}
use factory_demo.Upstream.Market.Statuses.{IsForeign, prices-fails_with}
use factory_demo.HttpApi.{Elapsed, Server}
use factory_demo.HttpApi.Identifier.{IsCustomerId}
use factory_demo.HttpApi.Replies.{answer, answer_status_iff}
use factory_demo.Deployment.{Platform, upstream_ports, core_client, market_client}

module _ {W : Type 0} (p : Platform W) (id : Text) (w : W) where
  -- The endpoint that a request for the customer's portfolio asks first.
  abbrev pub first_endpoint : Text
  first_endpoint = accounts_endpoint p.json (core_client p.getenv) id

  -- The Core API has answered, and its body can be read.
  pub record HasResponse (response : Response) : Type 0 where
    pub middle : W
    pub accepted : p.network.refuses first_endpoint ≡ none
    pub answered : p.network.send first_endpoint w ≡ (ok response, middle)
    pub readable : response.body.fault ≡ none

  accounts-response :
      (response : Response)
      → HasResponse response
      → ((upstream_ports p).accounts id w).0 ≡ accounts_of p.json p.upper_runes id response
  unfolding upstream_ports accounts fetch
  accounts-response response h = ground (arith, h.accepted, h.answered)

upstream_prices :
    {W : Type 0} (p : Platform W)
    → IsForeign p.network Sentinel.customer_not_found
    → ((body : Body) → fails_with (p.decode_prices body) Sentinel.customer_not_found ≡ false)
    → (symbols : List Text) (v : W)
    → fails_with ((upstream_ports p).prices symbols v).0 Sentinel.customer_not_found ≡ false
unfolding upstream_ports
upstream_prices p f d symbols v =
    prices-fails_with p.upper_runes p.network (market_client p.getenv) p.decode_prices symbols v f d

-- Where the Core API has answered the request with a body that can be read, and neither the network
-- nor the decoder of prices makes an error that is the sentinel of a missing customer, the
-- assembled program answers with 404 exactly if the text is a customer's identifier and the Core
-- API has answered with 404.
pub not_found_iff :
    {float : Float} {W : Type 0} (p : Platform W) (order : List Text → List Text) (id : Text)
    (elapsed : Elapsed) (s : Server float W) (response : Response)
    → IsForeign p.network Sentinel.customer_not_found
    → ((body : Body) → fails_with (p.decode_prices body) Sentinel.customer_not_found ≡ false)
    → HasResponse p id s.world response
    → ((answer (upstream_ports p) order id elapsed s).status ≡ some 404)
      ↔ (IsCustomerId id × (response.status_code ≡ 404))
not_found_iff p order id elapsed s response f d h =
    let ports = upstream_ports p in
    let sent = (answer_status_iff ports order id elapsed s).2 in
    let missing : fails_with (get ports order id s.world).0 Sentinel.customer_not_found
        ≡ (response.status_code == 404) =
      get-fails_with_not_found ports order id s.world (upstream_prices p f d)
      ∙ ap (λ r. fails_with r Sentinel.customer_not_found)
          (accounts-response p id s.world response h)
      ∙ accounts_of-fails_with_not_found p.json p.upper_runes id response h.readable in
    (
      λ a. let (i, e) = sent.0 a in (i, ground (arith, missing)),
      λ (i, e). sent.1 (i, ground (arith, missing)),
    )
