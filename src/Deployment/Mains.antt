-- ===== src/Deployment/Mains.antt =====
-- The main functions of cmd/portfolio-api, cmd/core-mock and cmd/market-mock, as functions of the
-- environment and of what RunServer returns, to an exit status and the process behind them. os.Exit
-- and log.Fatal skip the deferred calls; a return makes them, the last one first.
pub mod Endings
pub mod Success
pub mod Spans
use factory_demo.Base.{
  ℕ, ◌*◌, ◌^◌, List, [], ◌∷◌, ◌++◌, Bool, Option, none, some, Result, ok, err, if◌then◌else◌,
}
use factory_demo.Base.Int.{ℤ}
use factory_demo.Text.{Text, codes}
use factory_demo.Failure.{Failure}
use factory_demo.Process.{
  Logger, Level, Attribute, Effect, ClientSettings, ServerSettings, System, Process, note, log,
}
use factory_demo.Observability.Logging.{Closer, new_logger, close_log}
use factory_demo.Observability.Tracing.{Shutdown, setup_tracing, shutdown_tracing}
use factory_demo.Deployment.{env_or_default}
use factory_demo.Mocks.Core.{parse_contract_version}

abbrev pub second : ℕ
second = 1000000000

-- The http.Client of the API.
abbrev pub client_settings : ℤ → ClientSettings
client_settings request_timeout = record {
  timeout = request_timeout;
  response_header_timeout = request_timeout;
  dial_timeout = second;
  tls_handshake_timeout = second;
  idle_connection_timeout = 30 * second;
  max_idle_connections = 20;
  max_idle_connections_per_host = 10;
}

-- The http.Server of each program; the mocks leave MaxHeaderBytes alone.
unfoldable pub server_settings : (Text → Text) → Text → ℕ → ServerSettings
unfolding env_or_default
server_settings getenv port max_header_bytes = record {
  address = codes ":" ++ env_or_default getenv (codes "PORT") port;
  read_header_timeout = 2 * second;
  read_timeout = 5 * second;
  write_timeout = 5 * second;
  idle_timeout = 30 * second;
  max_header_bytes = max_header_bytes;
}

-- `if err != nil { …; os.Exit(1) }` behind a call with a result.
abbrev pub checked {ℓ} :
    {A : Type ℓ}
    → (Failure → Process → ℕ × Process)
    → (A → Process → ℕ × Process)
    → Result Failure A × Process
    → ℕ × Process
checked fail go (err e, p) = fail e p
checked fail go (ok a, p) = go a p

-- logger.Error with the error, and os.Exit(1).
abbrev pub exit_with : Logger → Text → Failure → Process → ℕ × Process
exit_with logger message e p =
    (1, log logger Level.error message ((codes "error", Attribute.failure e) ∷ []) p)

-- logger.Warn where the shutdown of tracing has an error.
abbrev pub warn_of : Logger → List Failure → Process → Process
warn_of logger [] p = p
warn_of logger (e ∷ es) p =
    log logger Level.warn (codes "shutdown tracing")
      ((codes "error", Attribute.joined (e ∷ es)) ∷ []) p

module _ (system : System) where
  -- log.Fatal where NewLogger fails.
  unfoldable pub with_logger :
      (Text → Text) → Text → (Logger → Closer → Process → ℕ × Process) → Process → ℕ × Process
  unfolding new_logger
  with_logger getenv service run p =
      checked (λ e q. (1, note (Effect.printed_fatal e) q)) (λ (logger, closer). run logger closer)
        (new_logger system service (getenv (codes "LOG_FILE")) p)

  -- The end of a main function of a mock: every error of RunServer is one.
  unfoldable pub mock_returned : Logger → Closer → Option Failure → Process → ℕ × Process
  unfolding close_log
  mock_returned logger closer (some e) p = exit_with logger (codes "server stopped") e p
  mock_returned logger closer none p = (0, (close_log system closer p).1)

  -- The deferred function that shuts tracing down.
  unfoldable pub finish_tracing : Logger → Shutdown → Process → Process
  unfolding shutdown_tracing
  finish_tracing logger shutdown p =
      let (errors, q) = shutdown_tracing system shutdown p in warn_of logger errors q

  module _ (is_closed : Failure → Bool) where
    -- The end of the API's main function: http.ErrServerClosed, which `is_closed` finds, is no error.
    unfoldable pub api_returned :
        Logger → Closer → Shutdown → Option Failure → Process → ℕ × Process
    unfolding finish_tracing close_log
    api_returned logger closer shutdown none p =
        (0, (close_log system closer (finish_tracing logger shutdown p)).1)
    api_returned logger closer shutdown (some e) p =
        if is_closed e
        then (0, (close_log system closer (finish_tracing logger shutdown p)).1)
        else exit_with logger (codes "server stopped") e p

    module _ (parse_duration : Text → Result Failure ℤ) (getenv : Text → Text) where
      -- From the client on.
      unfoldable pub api_started :
          Option Failure → Logger → Closer → Shutdown → ℤ → Process → ℕ × Process
      unfolding api_returned
      api_started served logger closer shutdown timeout p =
          api_returned logger closer shutdown served (
            note (Effect.served (server_settings getenv (codes "8080") (2 ^ 20)))
              (note (Effect.made_client (client_settings timeout)) p))

      -- From time.ParseDuration on, which is the parameter `parse_duration`.
      unfoldable pub api_configured :
          Option Failure → Logger → Closer → Shutdown → Process → ℕ × Process
      unfolding env_or_default api_started
      api_configured served logger closer shutdown p =
          checked (exit_with logger (codes "parse REQUEST_TIMEOUT"))
            (api_started served logger closer shutdown)
            (parse_duration (env_or_default getenv (codes "REQUEST_TIMEOUT") (codes "2s")), p)

      -- From slog.SetDefault on.
      unfoldable pub api_logged : Option Failure → Logger → Closer → Process → ℕ × Process
      unfolding env_or_default setup_tracing api_configured
      api_logged served logger closer p =
          let name = env_or_default getenv (codes "OTEL_SERVICE_NAME") (codes "portfolio-api") in
          checked (exit_with logger (codes "configure tracing"))
            (api_configured served logger closer)
            (setup_tracing system name (getenv (codes "OTEL_EXPORTER_OTLP_ENDPOINT"))
              (note (Effect.set_default logger) p))

      -- main of cmd/portfolio-api.
      unfoldable pub api_main : Option Failure → Process → ℕ × Process
      unfolding with_logger api_logged
      api_main served = with_logger getenv (codes "portfolio-api") (api_logged served)

  -- From the log line of the version on.
  unfoldable pub core_mock_started :
      (Text → Text) → Option Failure → Logger → Closer → Text → Process → ℕ × Process
  unfolding mock_returned
  core_mock_started getenv served logger closer version p = mock_returned logger closer served (
      note (Effect.served (server_settings getenv (codes "8081") 0)) (
        log logger Level.info (codes "core mock configured")
          ((codes "contract_version", Attribute.text version) ∷ []) p))

  -- From parseContractVersion on.
  unfoldable pub core_mock_logged :
      (Text → Text) → (Text → Text) → Option Failure → Logger → Closer → Process → ℕ × Process
  unfolding env_or_default parse_contract_version core_mock_started
  core_mock_logged quote getenv served logger closer p =
      let value = env_or_default getenv (codes "CORE_CONTRACT_VERSION") (codes "v1") in
      checked (exit_with logger (codes "invalid core mock configuration"))
        (core_mock_started getenv served logger closer) (parse_contract_version quote value, p)

  -- main of cmd/core-mock.
  unfoldable pub core_mock_main :
      (Text → Text) → (Text → Text) → Option Failure → Process → ℕ × Process
  unfolding with_logger core_mock_logged
  core_mock_main quote getenv served =
      with_logger getenv (codes "core-mock") (core_mock_logged quote getenv served)

  -- From the server on.
  unfoldable pub market_mock_started :
      (Text → Text) → Option Failure → Logger → Closer → Process → ℕ × Process
  unfolding mock_returned
  market_mock_started getenv served logger closer p =
      mock_returned logger closer served
        (note (Effect.served (server_settings getenv (codes "8082") 0)) p)

  -- main of cmd/market-mock.
  unfoldable pub market_mock_main : (Text → Text) → Option Failure → Process → ℕ × Process
  unfolding with_logger market_mock_started
  market_mock_main getenv served =
      with_logger getenv (codes "market-mock") (market_mock_started getenv served)
