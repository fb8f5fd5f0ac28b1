-- ===== src/HttpApi.antt =====
-- internal/httpapi/handler.go: the handlers behind the routes, as functions of the state of the server.
-- `Routes` has the patterns by which net/http's ServeMux chooses the route. encoding/json writes the
-- contents; a content is the value that is written.
pub mod Identifier
pub mod Mapping
pub mod Replies
pub mod Serving
pub mod Counters
pub mod Amounts
pub mod Routes
use factory_demo.Base.{ℕ, List, [], ◌∷◌, ◌++◌, Option, none, some, Result, ok, err, if◌then◌else◌}
use factory_demo.Base.Int.{ℤ, quot}
use factory_demo.Text.{Text, codes}
use factory_demo.Failure.{Failure, error_is, Sentinel}
use factory_demo.Dict.{Dict, insert}
use factory_demo.Portfolio.Service.{Ports, get, ready}
use factory_demo.Observability.Metrics.{Float, Metrics, observe, write_prometheus}
use factory_demo.HttpApi.Identifier.{is_customer_id}
use factory_demo.HttpApi.Mapping.{PortfolioResponse, map_portfolio}

-- errorBody.
pub record ErrorBody : Type 0 where
  pub code : Text
  pub message : Text

pub data Content : Type 0 where
  portfolio : PortfolioResponse → Content
  failure : ErrorBody → Content
  health : Text → Content
  plain : Text → Content

-- http.ResponseWriter: the first status that is written is sent.
pub record Writer : Type 0 where
  pub headers : Dict Text
  pub status : Option ℕ
  pub content : Option Content

abbrev pub set_header : Text → Text → Writer → Writer
set_header name value w = record w { headers = insert name value w.headers }

abbrev pub write_header : ℕ → Writer → Writer
write_header status w = elim w.status [ none ↦ record w { status = some status } | some _ ↦ w ]

-- Writing without a status sends 200.
abbrev pub write : Content → Writer → Writer
write content w = record (write_header 200 w) { content = some content }

-- writeJSON.
unfoldable pub write_json : ℕ → Content → Writer → Writer
write_json status value w =
    write value
      (write_header status (set_header (codes "Content-Type") (codes "application/json") w))

-- writeError.
unfoldable pub write_error : ℕ → Text → Text → Writer → Writer
unfolding write_json
write_error status code message =
    write_json status (Content.failure (record { code = code; message = message }))

-- Handler.live.
unfoldable pub handle_live : Writer → Writer
unfolding write_json
handle_live = write_json 200 (Content.health (codes "ok"))

-- What the handlers log: a status and a number of milliseconds, or an error.
pub data Event : Type 0 where
  completed : ℕ → ℤ → Event
  aggregation_failed : Failure → Event
  not_ready : Failure → Event

-- What the two calls of time.Since at the end of a request yield, in nanoseconds.
pub record Elapsed : Type 0 where
  pub observed : ℤ
  pub logged : ℤ

-- The endpoint that the ServeMux chooses, or the status and the text of its own answer to a request that
-- no pattern matches; the headers that it adds to that answer are left out.
pub data Route : Type 0 where
  customer_portfolio : Text → Elapsed → Route
  health_live health_ready metrics : Route
  unmatched : ℕ → Text → Route

module _ (float : Float) (W : Type 0) where
  -- The world behind the ports, the counters and the log.
  pub record Server : Type 0 where
    pub world : W
    pub metrics : Metrics float
    pub log : List Event

module _ {float : Float} {W : Type 0} where
  -- The part of the portfolio handler that is not deferred: the status, the answer and the server.
  unfoldable pub respond :
      Ports W
      → (List Text → List Text)
      → Text
      → Writer
      → Server float W
      → ℕ × Writer × Server float W
  respond ports order id w s =
      if is_customer_id id
      then (let (result, world) = get ports order id s.world in
          elim result [
            | ok r ↦ (
              200,
              write_json 200 (Content.portfolio (map_portfolio r)) w,
              record s { world = world },
            )
            | err e ↦
                if error_is e Sentinel.customer_not_found
                then (
                  404,
                  write_error 404 (codes "CUSTOMER_NOT_FOUND")
                      (codes "customer portfolio was not found") w,
                  record s { world = world },
                )
                else (
                  502,
                  write_error 502 (codes "UPSTREAM_FAILURE")
                      (codes "portfolio data is temporarily unavailable") w,
                  record s { world = world; log = s.log ++ aggregation_failed e ∷ [] },
                )
          ])
      else (
        400,
        write_error 400 (codes "INVALID_CUSTOMER_ID")
            (codes "customerId must match cust- followed by 4 to 12 digits") w,
        s,
      )

  -- The deferred function.
  unfoldable pub complete : ℕ → Elapsed → Server float W → Server float W
  unfolding observe quot
  complete status elapsed s = record s {
    metrics = observe float status elapsed.observed s.metrics;
    log = s.log ++ completed status (quot elapsed.logged 1000000) ∷ [];
  }

  -- Handler.portfolio.
  unfoldable pub handle_portfolio :
      Ports W
      → (List Text → List Text)
      → Text
      → Elapsed
      → Writer
      → Server float W
      → Writer × Server float W
  unfolding respond complete
  handle_portfolio ports order id elapsed w s =
      let (status, w', s') = respond ports order id w s in (w', complete status elapsed s')

  -- Handler.ready. The deadline of a second reaches the ports as an error of theirs.
  unfoldable pub handle_ready : Ports W → Writer → Server float W → Writer × Server float W
  unfolding write_json write_error
  handle_ready ports w s =
      let (result, world) = ready ports s.world in
      elim result [
        | ok _ ↦ (write_json 200 (Content.health (codes "ready")) w, record s { world = world })
        | err e ↦ (
          write_error 503 (codes "NOT_READY") (codes "a required dependency is unavailable") w,
          record s { world = world; log = s.log ++ not_ready e ∷ [] },
        )
      ]

  -- Handler.prometheus.
  unfoldable pub handle_prometheus : (List Text → List Text) → Writer → Server float W → Writer
  handle_prometheus order w s =
      write (Content.plain (write_prometheus float order s.metrics))
        (set_header (codes "Content-Type") (codes "text/plain; version=0.0.4") w)

  -- The routes of NewHandler.
  unfoldable pub dispatch :
      Ports W → (List Text → List Text) → Route → Writer → Server float W → Writer × Server float W
  unfolding handle_portfolio handle_live handle_ready handle_prometheus
  dispatch ports order (Route.customer_portfolio id elapsed) w s =
      handle_portfolio ports order id elapsed w s
  dispatch ports order Route.health_live w s = (handle_live w, s)
  dispatch ports order Route.health_ready w s = handle_ready ports w s
  dispatch ports order Route.metrics w s = (handle_prometheus order w s, s)
  dispatch ports order (Route.unmatched status text) w s =
      (write (Content.plain text) (write_header status w), s)

abbrev pub new_writer : Writer
new_writer = record { headers = []; status = none; content = none }

-- securityHeaders, in front of a handler.
unfoldable pub secured : Writer → Writer
secured w = set_header (codes "X-Content-Type-Options") (codes "nosniff") (
    set_header (codes "Content-Security-Policy")
      (codes "default-src 'none'; frame-ancestors 'none'")
      (set_header (codes "Cache-Control") (codes "no-store") w))

-- The handler that NewHandler returns.
unfoldable pub serve :
    {float : Float} {W : Type 0}
    → Ports W
    → (List Text → List Text)
    → Route
    → Server float W
    → Writer × Server float W
unfolding dispatch secured
serve ports order route s = dispatch ports order route (secured new_writer) s
