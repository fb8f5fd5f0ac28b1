-- ===== src/HttpApi/Routes.antt =====
-- The patterns of NewHandler of internal/httpapi/handler.go, and requests as the server routes them.
pub mod Reached
use factory_demo.Base.{ℕ, List, [], ◌∷◌, ◌++◌}
use factory_demo.Text.{Text, codes}
use factory_demo.Portfolio.Service.{Ports}
use factory_demo.Observability.Metrics.{Float}
use factory_demo.Routing.{Part, Entry, Choice, choose}
use factory_demo.HttpApi.{Elapsed, Route, Server, Writer, serve}

-- request.PathValue("customerID").
abbrev pub only_value : List Text → Text
only_value [] = []
only_value (t ∷ _) = t

abbrev pub at : List Text → List Part
at [] = []
at (l ∷ ls) = Part.literal l ∷ at ls

-- The handlers registered in NewHandler, by what the clock measures while they run.
unfoldable pub entries : List (Entry (Elapsed → Route))
entries =
    record {
      parts =
          at (codes "api" ∷ codes "v1" ∷ codes "customers" ∷ [])
          ++ Part.wildcard ∷ Part.literal (codes "portfolio") ∷ [];
      endpoint = λ values elapsed. Route.customer_portfolio (only_value values) elapsed;
    }
    ∷ record {
      parts = at (codes "health" ∷ codes "live" ∷ []);
      endpoint = λ values elapsed. Route.health_live;
    }
    ∷ record {
      parts = at (codes "health" ∷ codes "ready" ∷ []);
      endpoint = λ values elapsed. Route.health_ready;
    }
    ∷ record { parts = at (codes "metrics" ∷ []); endpoint = λ values elapsed. Route.metrics }
    ∷ []

module _ (redirected : Text → ℕ × Text) where
  -- What the ServeMux answers itself; how it redirects is `redirected`.
  abbrev pub route_of : Choice (Elapsed → Route) → Elapsed → Route
  route_of (Choice.handler endpoint) elapsed = endpoint elapsed
  route_of (Choice.redirect path) elapsed =
      let (status, text) = redirected path in Route.unmatched status text
  route_of Choice.method_not_allowed elapsed =
      Route.unmatched 405 (codes "Method Not Allowed" ++ b'\n' ∷ [])
  route_of Choice.not_found elapsed = Route.unmatched 404 (codes "404 page not found" ++ b'\n' ∷ [])

  -- A request by its method and its path.
  unfoldable pub serve_request :
      {float : Float} {W : Type 0}
      → Ports W
      → (List Text → List Text)
      → Text
      → Text
      → Elapsed
      → Server float W
      → Writer × Server float W
  unfolding choose entries serve
  serve_request ports order method path elapsed s =
      serve ports order (route_of (choose entries method path) elapsed) s
