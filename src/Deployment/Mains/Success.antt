-- ===== src/Deployment/Mains/Success.antt =====
-- When the API's main function ends with status 0, and what it has done with tracing by then.
use factory_demo.Base.{ℕ, ◌≡◌, ◌↔◌, refl, ◌∙◌, ap, Bool, Option, none, some, Result, ok, err, arith}
use factory_demo.Base.Int.{ℤ}
use factory_demo.Text.{Text, codes}
use factory_demo.Failure.{Failure}
use factory_demo.Process.{Logger, System, Process, Effect, note}
use factory_demo.Observability.Logging.{Closer}
use factory_demo.Observability.Tracing.{Shutdown, setup_tracing}
use factory_demo.Deployment.{env_or_default}
use factory_demo.Deployment.Lifecycle.{unless_closed}
use factory_demo.Deployment.Mains.{
  with_logger, checked, exit_with, api_returned, api_started, api_configured, api_logged, api_main,
}
use factory_demo.Deployment.Mains.Endings.{logger_made}

checked_zero_iff {ℓ} :
    {A : Type ℓ} (fail : Failure → Process → ℕ × Process) (go : A → Process → ℕ × Process)
    (r : Result Failure A) (p : Process)
    → ((e : Failure) → (fail e p).0 ≡ 1)
    → ((checked fail go (r, p)).0 ≡ 0) ↔ ((a : A) × (r ≡ ok a) × ((go a p).0 ≡ 0))
checked_zero_iff fail go (err e) p f =
    (λ h. absurd (omega (arith, h, f e)), λ (a, h, _). absurd (ground (arith, h)))
checked_zero_iff fail go (ok a) p f =
    (λ h. (a, refl, h), λ (b, h, k). let same : a ≡ b = cc (h) in ap (λ c. (go c p).0) same ∙ k)

module _ (system : System) (is_closed : Failure → Bool) where
  api_returned_zero_iff :
      (logger : Logger) (closer : Closer) (shutdown : Shutdown) (served : Option Failure)
      (p : Process)
      → ((api_returned system is_closed logger closer shutdown served p).0 ≡ 0)
        ↔ (unless_closed is_closed served ≡ none)
  unfolding api_returned unless_closed
  api_returned_zero_iff logger closer shutdown none p = (λ _. refl, λ _. refl)
  api_returned_zero_iff logger closer shutdown (some e) p = ground arith

  module _ (parse_duration : Text → Result Failure ℤ) (getenv : Text → Text) (p : Process) where
    abbrev pub tracing_made : Logger → Process → Result Failure Shutdown × Process
    tracing_made logger q =
        setup_tracing system
          (env_or_default getenv (codes "OTEL_SERVICE_NAME") (codes "portfolio-api"))
          (getenv (codes "OTEL_EXPORTER_OTLP_ENDPOINT")) (note (Effect.set_default logger) q)

    abbrev pub timeout_read : Result Failure ℤ
    timeout_read = parse_duration (env_or_default getenv (codes "REQUEST_TIMEOUT") (codes "2s"))

    -- What has to hold for the program to end well.
    pub record EndsWell (served : Option Failure) : Type 0 where
      pub logger : Logger
      pub closer : Closer
      pub shutdown : Shutdown
      pub timeout : ℤ
      pub logs : (logger_made system getenv p (codes "portfolio-api")).0 ≡ ok (logger, closer)
      pub traces :
          (tracing_made logger (logger_made system getenv p (codes "portfolio-api")).1).0
          ≡ ok shutdown
      pub configured : timeout_read ≡ ok timeout
      pub returned : unless_closed is_closed served ≡ none

    api_configured_zero_iff :
        (served : Option Failure) (logger : Logger) (closer : Closer) (shutdown : Shutdown)
        (q : Process)
        → ((api_configured system is_closed parse_duration getenv served logger closer shutdown q).0
            ≡ 0)
          ↔ ((timeout : ℤ) × (timeout_read ≡ ok timeout) × (unless_closed is_closed served ≡ none))
    unfolding api_configured api_started
    api_configured_zero_iff served logger closer shutdown q =
        let same =
          checked_zero_iff (exit_with logger (codes "parse REQUEST_TIMEOUT"))
            (api_started system is_closed parse_duration getenv served logger closer shutdown)
            timeout_read q (λ _. refl) in
        let last = api_returned_zero_iff logger closer shutdown served in
        (
          λ h. let (timeout, e, k) = same.0 h in (timeout, e, (last _).0 k),
          λ (timeout, e, k). same.1 (timeout, e, (last _).1 k),
        )

    api_logged_zero_iff :
        (served : Option Failure) (logger : Logger) (closer : Closer) (q : Process)
        → ((api_logged system is_closed parse_duration getenv served logger closer q).0 ≡ 0) ↔ (
            (shutdown : Shutdown) × ((tracing_made logger q).0 ≡ ok shutdown)
            × ((timeout : ℤ) × (timeout_read ≡ ok timeout)
                × (unless_closed is_closed served ≡ none)))
    unfolding api_logged
    api_logged_zero_iff served logger closer q =
        let (made, r) = tracing_made logger q in
        let same =
          checked_zero_iff (exit_with logger (codes "configure tracing"))
            (api_configured system is_closed parse_duration getenv served logger closer) made r
            (λ _. refl) in
        let last = api_configured_zero_iff served logger closer in
        (
          λ h. let (shutdown, e, k) = same.0 h in (shutdown, e, (last shutdown r).0 k),
          λ (shutdown, e, k). same.1 (shutdown, e, (last shutdown r).1 k),
        )

    -- The API's main function ends with status 0 exactly if the logger and tracing could be set up,
    -- REQUEST_TIMEOUT or its default is a duration, and RunServer returned nil or
    -- http.ErrServerClosed.
    pub api_main_zero_iff :
        (served : Option Failure)
        → ((api_main system is_closed parse_duration getenv served p).0 ≡ 0) ↔ EndsWell served
    unfolding api_main with_logger
    api_main_zero_iff served =
        let (made, q) = logger_made system getenv p (codes "portfolio-api") in
        let same =
          checked_zero_iff (λ e q. (1, note (Effect.printed_fatal e) q))
            (λ (logger, closer).
              api_logged system is_closed parse_duration getenv served logger closer)
            made q (λ _. refl) in
        let last = api_logged_zero_iff served in
        (
          λ h.
              let ((logger, closer), logs, k) = same.0 h in
              let (shutdown, traces, (timeout, configured, returned)) =
                (last logger closer q).0 k in
              record {
                logger = logger;
                closer = closer;
                shutdown = shutdown;
                timeout = timeout;
                logs = logs;
                traces = traces;
                configured = configured;
                returned = returned;
              },
          λ w. same.1 (
            (w.logger, w.closer),
            w.logs,
            (last w.logger w.closer q).1
                (w.shutdown, w.traces, (w.timeout, w.configured, w.returned)),
          ),
        )
