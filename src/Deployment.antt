-- ===== src/Deployment.antt =====
-- cmd/portfolio-api/main.go: how the clients, the service and the handlers are put together, and
-- internal/app/env.go.
pub mod Outcomes
pub mod Lifecycle
pub mod Mains
pub mod Demo
use factory_demo.Base.{[], List, Result, if◌then◌else◌, ◌++◌}
use factory_demo.Text.{Text, codes, is_empty}
use factory_demo.Failure.{Failure}
use factory_demo.Portfolio.Service.{Ports}
use factory_demo.Observability.Metrics.{Float, new_metrics}
use factory_demo.Upstream.Wire.{MarketPricesResponse}
use factory_demo.Upstream.Http.{Body, Network, Client, new_client}
use factory_demo.Upstream.Core
use factory_demo.Upstream.Market
use factory_demo.HttpApi.{Server}

-- EnvOrDefault. os.Getenv yields the empty text for a variable that is not set.
unfoldable pub env_or_default : (Text → Text) → Text → Text → Text
env_or_default getenv name fallback =
    let value = getenv name in if is_empty value then fallback else value

unfoldable pub core_client : (Text → Text) → Client
unfolding env_or_default
core_client getenv =
    new_client (env_or_default getenv (codes "CORE_API_BASE_URL") (codes "http://localhost:8081"))

unfoldable pub market_client : (Text → Text) → Client
unfolding env_or_default
market_client getenv =
    Market.new_market_client
      (env_or_default getenv (codes "MARKET_API_BASE_URL") (codes "http://localhost:8082"))

unfoldable pub address : (Text → Text) → Text
unfolding env_or_default
address getenv = codes ":" ++ env_or_default getenv (codes "PORT") (codes "8080")

-- What the standard library and the machine give: the upper-case table, the decoders, the network
-- and the environment.
pub record Platform (W : Type 0) : Type 1 where
  pub upper_runes : Text → Text
  pub json : Core.Json
  pub decode_prices : Body → Result Failure MarketPricesResponse
  pub network : Network W
  pub getenv : Text → Text

-- NewService on the two clients.
unfoldable pub upstream_ports : {W : Type 0} → Platform W → Ports W
unfolding core_client market_client
upstream_ports p = record {
  accounts = Core.accounts p.json p.network (core_client p.getenv) p.upper_runes;
  accounts_healthy = Core.healthy p.network (core_client p.getenv);
  prices = Market.prices p.upper_runes p.network (market_client p.getenv) p.decode_prices;
  prices_healthy = Market.healthy p.network (market_client p.getenv);
}

-- The server as main starts it.
unfoldable pub new_server : (float : Float) → {W : Type 0} → W → Server float W
new_server float w = record { world = w; metrics = new_metrics float; log = [] }
