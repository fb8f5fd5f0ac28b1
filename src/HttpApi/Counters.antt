-- ===== src/HttpApi/Counters.antt =====
-- The server under a sequence of requests: what its counters hold.
use factory_demo.Base.{
  ℕ, suc, ◌%◌, List, [], ◌∷◌, ◌==◌, ◌≡◌, refl, sym, ap, ◌∙◌, Bool, false, Option, none, some,
  Option-cases, arith, inl, inr, if◌then◌else◌,
}
use factory_demo.Text.{Text}
use factory_demo.Portfolio.Service.{Ports}
use factory_demo.Observability.Metrics.{Float, Metrics, new_metrics, u64_mod}
use factory_demo.Observability.Metrics.Counting.{
  counted, Observation, observe_all, occurrences, observe_all_lem,
}
use factory_demo.HttpApi.{
  Writer, Elapsed, Route, Server, serve, dispatch, handle_ready, secured, new_writer,
}
use factory_demo.HttpApi.Replies.{answer, behind, answer_status, answer_observed}

module _ {float : Float} {W : Type 0} (ports : Ports W) (order : List Text → List Text) where
  -- The requests of a sequence, one behind the other, and their answers.
  abbrev pub serve_all : List Route → Server float W → List (Route × Writer) × Server float W
  serve_all [] s = ([], s)
  serve_all (route ∷ routes) s =
      let (w, s') = serve ports order route s in
      let (ws, s'') = serve_all routes s' in ((route, w) ∷ ws, s'')

-- The answers to requests for portfolios that have a status.
abbrev pub is_sent : ℕ → Option ℕ → Bool
is_sent n none = false
is_sent n (some m) = m == n

abbrev pub sent : ℕ → List (Route × Writer) → ℕ
sent n [] = 0
sent n ((Route.customer_portfolio _ _, w) ∷ ws) =
    if is_sent n w.status then suc (sent n ws) else sent n ws
sent n ((Route.health_live, _) ∷ ws) = sent n ws
sent n ((Route.health_ready, _) ∷ ws) = sent n ws
sent n ((Route.metrics, _) ∷ ws) = sent n ws
sent n ((Route.unmatched _ _, _) ∷ ws) = sent n ws

-- What an answer adds to the observations.
abbrev seen : Option ℕ → Elapsed → List Observation → List Observation
seen none elapsed os = os
seen (some n) elapsed os = record { status = n; duration = elapsed.observed } ∷ os

abbrev observations : List (Route × Writer) → List Observation
observations [] = []
observations ((Route.customer_portfolio _ elapsed, w) ∷ ws) =
    seen w.status elapsed (observations ws)
observations ((Route.health_live, _) ∷ ws) = observations ws
observations ((Route.health_ready, _) ∷ ws) = observations ws
observations ((Route.metrics, _) ∷ ws) = observations ws
observations ((Route.unmatched _ _, _) ∷ ws) = observations ws

occurrences-observations :
    (n : ℕ) (ws : List (Route × Writer)) → occurrences n (observations ws) ≡ sent n ws
occurrences-observations n [] = refl
occurrences-observations n ((Route.customer_portfolio id elapsed, w) ∷ ws) =
    elim (Option-cases w.status) [
      | inl e ↦ ground (arith, occurrences-observations n ws)
      | inr (m, e) ↦ ground (arith, occurrences-observations n ws)
    ]
occurrences-observations n ((Route.health_live, _) ∷ ws) = occurrences-observations n ws
occurrences-observations n ((Route.health_ready, _) ∷ ws) = occurrences-observations n ws
occurrences-observations n ((Route.metrics, _) ∷ ws) = occurrences-observations n ws
occurrences-observations n ((Route.unmatched _ _, _) ∷ ws) = occurrences-observations n ws

module _ {float : Float} {W : Type 0} (ports : Ports W) (order : List Text → List Text) where
  handle_ready-metrics :
      (w : Writer) (s : Server float W) → (handle_ready ports w s).1.metrics ≡ s.metrics
  unfolding handle_ready
  handle_ready-metrics w s = ground arith

  portfolio-metrics :
      (id : Text) (elapsed : Elapsed) (s : Server float W) (ws : List (Route × Writer))
      → observe_all float
          (seen (answer ports order id elapsed s).status elapsed (observations ws))
          s.metrics
        ≡ observe_all float (observations ws) (behind ports order id elapsed s).metrics
  portfolio-metrics id elapsed s ws =
      let status = answer_status ports order id elapsed s in
      rw status (
        ap (observe_all float (observations ws))
          (sym (answer_observed ports order id elapsed s _ status).0))

  serve-metrics :
      (route : Route) (s : Server float W) (ws : List (Route × Writer))
      → observe_all float (observations ((route, (serve ports order route s).0) ∷ ws)) s.metrics
        ≡ observe_all float (observations ws) (serve ports order route s).1.metrics
  unfolding serve dispatch
  serve-metrics (Route.customer_portfolio id elapsed) s ws = portfolio-metrics id elapsed s ws
  serve-metrics Route.health_live s ws = refl
  serve-metrics Route.health_ready s ws =
      ap (observe_all float (observations ws)) (sym (handle_ready-metrics (secured new_writer) s))
  serve-metrics Route.metrics s ws = refl
  serve-metrics (Route.unmatched status text) s ws = refl

  serve_all-metrics :
      (routes : List Route) (s : Server float W)
      → (serve_all ports order routes s).1.metrics
        ≡ observe_all float (observations (serve_all ports order routes s).0) s.metrics
  serve_all-metrics [] s = refl
  serve_all-metrics (route ∷ routes) s =
      let s' = (serve ports order route s).1 in
      serve_all-metrics routes s' ∙ sym (serve-metrics route s (serve_all ports order routes s').0)

  -- Of a server that starts with new counters, after any sequence of requests on any routes, the
  -- counter of each status is the number of answers to requests for portfolios with that status, as
  -- a uint64 value.
  pub serve_all-counted :
      (routes : List Route) (s : Server float W) (n : ℕ)
      → s.metrics ≡ new_metrics float
      → counted n (serve_all ports order routes s).1.metrics.requests
        ≡ sent n (serve_all ports order routes s).0 % u64_mod
  serve_all-counted routes s n h =
      let os = observations (serve_all ports order routes s).0 in
      ap (λ (m : Metrics float). counted n m.requests)
        (serve_all-metrics routes s ∙ ap (observe_all float os) h)
      ∙ (observe_all_lem float os n).0
      ∙ ap (λ k. k % u64_mod) (occurrences-observations n (serve_all ports order routes s).0)
