-- ===== src/Deployment/Mains/Endings.antt =====
-- How the main functions end: the handles that are open behind them.
use factory_demo.Base.{
  ℕ, List, [], ◌∷◌, ◌≡◌, ◌⊎◌, inl, inr, refl, ◌∙◌, Bool, Bool-cases, Option, none, some, Result, ok,
  err, arith,
}
use factory_demo.Base.Int.{ℤ}
use factory_demo.Text.{Text, codes}
use factory_demo.Failure.{Failure}
use factory_demo.Process.{Logger, System, Process, Effect, note}
use factory_demo.Observability.Logging.{Closer, new_logger, close_log}
use factory_demo.Observability.Logging.Handles.{
  handles_after, new_logger-handles, close_log-handles,
}
use factory_demo.Observability.Tracing.{Shutdown, setup_tracing, shutdown_tracing}
use factory_demo.Mocks.Core.{parse_contract_version}
use factory_demo.Deployment.{env_or_default}
use factory_demo.Deployment.Mains.{
  api_started, core_mock_started, market_mock_started, with_logger, checked, exit_with, warn_of,
  mock_returned, finish_tracing, api_returned, api_configured, api_logged, api_main,
  core_mock_logged, core_mock_main, market_mock_main,
}

-- A run that ends with status 0 leaves the handles `released` open, and one that ends with status 1
-- leaves `held`.
abbrev pub Ends : List ℕ → List ℕ → ℕ × Process → Type 0
Ends released held (status, p) =
    ((status ≡ 0) × (p.handles ≡ released)) ⊎ ((status ≡ 1) × (p.handles ≡ held))

abbrev Holds : List ℕ → Logger → Closer → Process → Type 0
Holds hs logger closer p = p.handles ≡ handles_after hs (ok (logger, closer))

abbrev EndsWith : List ℕ → Logger → Closer → ℕ × Process → Type 0
EndsWith hs logger closer = Ends hs (handles_after hs (ok (logger, closer)))

warn_of-handles :
    (logger : Logger) (errors : List Failure) (p : Process)
    → (warn_of logger errors p).handles ≡ p.handles
warn_of-handles logger [] p = refl
warn_of-handles logger (e ∷ es) p = refl

checked-EndsWith {ℓ} :
    {A : Type ℓ} (hs : List ℕ) (logger : Logger) (closer : Closer) (message : Text)
    (go : A → Process → ℕ × Process) (r : Result Failure A) (p : Process)
    → Holds hs logger closer p
    → ((a : A) → EndsWith hs logger closer (go a p))
    → EndsWith hs logger closer (checked (exit_with logger message) go (r, p))
checked-EndsWith hs logger closer message go (err e) p h k = inr (refl, h)
checked-EndsWith hs logger closer message go (ok a) p h k = k a

module _ (system : System) (hs : List ℕ) where
  mock_returned-EndsWith :
      (logger : Logger) (closer : Closer) (served : Option Failure) (p : Process)
      → Holds hs logger closer p
      → EndsWith hs logger closer (mock_returned system logger closer served p)
  unfolding mock_returned
  mock_returned-EndsWith logger closer (some e) p h = inr (refl, h)
  mock_returned-EndsWith logger closer none p h =
      inl (refl, close_log-handles system closer logger hs p h)

  finish_tracing-handles :
      (logger : Logger) (shutdown : Shutdown) (p : Process)
      → (finish_tracing system logger shutdown p).handles ≡ p.handles
  unfolding finish_tracing
  finish_tracing-handles logger Shutdown.no_tracing p = refl
  finish_tracing-handles logger (Shutdown.of_provider provider) p =
      let (errors, q) = shutdown_tracing system (Shutdown.of_provider provider) p in
      warn_of-handles logger errors q

  setup_tracing-handles :
      (service endpoint : Text) (p : Process)
      → (setup_tracing system service endpoint p).1.handles ≡ p.handles
  unfolding setup_tracing
  setup_tracing-handles service endpoint p = ground arith

  returned-EndsWith :
      (logger : Logger) (closer : Closer) (shutdown : Shutdown) (p : Process)
      → Holds hs logger closer p
      → EndsWith hs logger closer
          (0, (close_log system closer (finish_tracing system logger shutdown p)).1)
  returned-EndsWith logger closer shutdown p h = inl (
    refl,
    close_log-handles system closer logger hs (finish_tracing system logger shutdown p)
        (finish_tracing-handles logger shutdown p ∙ h),
  )

  module _ (is_closed : Failure → Bool) where
    api_returned-EndsWith :
        (logger : Logger) (closer : Closer) (shutdown : Shutdown) (served : Option Failure)
        (p : Process)
        → Holds hs logger closer p
        → EndsWith hs logger closer (api_returned system is_closed logger closer shutdown served p)
    unfolding api_returned
    api_returned-EndsWith logger closer shutdown none p h =
        returned-EndsWith logger closer shutdown p h
    api_returned-EndsWith logger closer shutdown (some e) p h = elim (Bool-cases (is_closed e)) [
      | inl c ↦ rw c (returned-EndsWith logger closer shutdown p h)
      | inr c ↦ rw c (inr (refl, h))
    ]

    module _ (parse_duration : Text → Result Failure ℤ) (getenv : Text → Text) where
      api_configured-EndsWith :
          (served : Option Failure) (logger : Logger) (closer : Closer) (shutdown : Shutdown)
          (p : Process)
          → Holds hs logger closer p
          → EndsWith hs logger closer (
              api_configured system is_closed parse_duration getenv served logger closer shutdown p)
      unfolding api_configured api_started
      api_configured-EndsWith served logger closer shutdown p h =
          checked-EndsWith hs logger closer (codes "parse REQUEST_TIMEOUT")
            (api_started system is_closed parse_duration getenv served logger closer shutdown)
            (parse_duration (env_or_default getenv (codes "REQUEST_TIMEOUT") (codes "2s"))) p h
            (λ timeout. api_returned-EndsWith logger closer shutdown served _ h)

      api_logged-EndsWith :
          (served : Option Failure) (logger : Logger) (closer : Closer) (p : Process)
          → Holds hs logger closer p
          → EndsWith hs logger closer
              (api_logged system is_closed parse_duration getenv served logger closer p)
      unfolding api_logged
      api_logged-EndsWith served logger closer p h =
          let name = env_or_default getenv (codes "OTEL_SERVICE_NAME") (codes "portfolio-api") in
          let (made, q) =
            setup_tracing system name (getenv (codes "OTEL_EXPORTER_OTLP_ENDPOINT"))
              (note (Effect.set_default logger) p) in
          let k : Holds hs logger closer q = setup_tracing-handles _ _ _ ∙ h in
          checked-EndsWith hs logger closer (codes "configure tracing")
            (api_configured system is_closed parse_duration getenv served logger closer) made q k
            (λ shutdown. api_configured-EndsWith served logger closer shutdown q k)

  core_mock_logged-EndsWith :
      (quote getenv : Text → Text) (served : Option Failure) (logger : Logger) (closer : Closer)
      (p : Process)
      → Holds hs logger closer p
      → EndsWith hs logger closer (core_mock_logged system quote getenv served logger closer p)
  unfolding core_mock_logged core_mock_started
  core_mock_logged-EndsWith quote getenv served logger closer p h =
      checked-EndsWith hs logger closer (codes "invalid core mock configuration")
        (core_mock_started system getenv served logger closer)
        (parse_contract_version quote
          (env_or_default getenv (codes "CORE_CONTRACT_VERSION") (codes "v1")))
        p h (λ version. mock_returned-EndsWith logger closer served _ h)

module _ (system : System) (getenv : Text → Text) (p : Process) where
  -- NewLogger of a main function.
  abbrev pub logger_made : Text → Result Failure (Logger × Closer) × Process
  logger_made service = new_logger system service (getenv (codes "LOG_FILE")) p

  with_logger-Ends :
      (service : Text) (run : Logger → Closer → Process → ℕ × Process)
      → ((logger : Logger) (closer : Closer) (q : Process)
          → Holds p.handles logger closer q
          → EndsWith p.handles logger closer (run logger closer q))
      → Ends p.handles
          (handles_after p.handles (logger_made service).0)
          (with_logger system getenv service run p)
  unfolding with_logger
  with_logger-Ends service run h =
      split_made (logger_made service).0 (logger_made service).1
        (new_logger-handles system service (getenv (codes "LOG_FILE")) p)
    where
      split_made :
          (r : Result Failure (Logger × Closer)) (q : Process)
          → q.handles ≡ handles_after p.handles r
          → Ends p.handles (handles_after p.handles r) (
              checked
                (λ e q. (1, note (Effect.printed_fatal e) q))
                (λ (logger, closer). run logger closer)
                (r, q))
      split_made (err e) q same = inr (refl, same)
      split_made (ok (logger, closer)) q same = h logger closer q same

  -- Each of the three programs either ends with status 0, and then it has closed every handle that it
  -- opened, or ends with status 1, and then those that NewLogger left open are still open: os.Exit
  -- and log.Fatal skip the deferred calls.
  pub mains-Ends :
      (is_closed : Failure → Bool) (parse_duration : Text → Result Failure ℤ) (quote : Text → Text)
      (served : Option Failure)
      → Ends p.handles
          (handles_after p.handles (logger_made (codes "portfolio-api")).0)
          (api_main system is_closed parse_duration getenv served p)
        × Ends p.handles
            (handles_after p.handles (logger_made (codes "core-mock")).0)
            (core_mock_main system quote getenv served p)
        × Ends p.handles
            (handles_after p.handles (logger_made (codes "market-mock")).0)
            (market_mock_main system getenv served p)
  unfolding api_main core_mock_main market_mock_main market_mock_started
  mains-Ends is_closed parse_duration quote served = (
    with_logger-Ends (codes "portfolio-api")
        (api_logged system is_closed parse_duration getenv served)
        (api_logged-EndsWith system p.handles is_closed parse_duration getenv served),
    with_logger-Ends (codes "core-mock") (core_mock_logged system quote getenv served)
        (core_mock_logged-EndsWith system p.handles quote getenv served),
    with_logger-Ends (codes "market-mock") (market_mock_started system getenv served)
        (λ logger closer q h. mock_returned-EndsWith system p.handles logger closer served _ h),
  )
