-- ===== src/Tests/ProcessExamples.antt =====
-- Examples for the theorems on the main functions, the logger and the life cycle of the server.
use factory_demo.Base.{
  List, [], ◌∷◌, ◌≡◌, ◌⊎◌, ◌↔◌, none, some, Result, ok, err, Bool, false, if◌then◌else◌,
}
use factory_demo.Base.Int.{ℤ, pos}
use factory_demo.Text.{Text, codes, text_eq}
use factory_demo.Failure.{Failure, foreign}
use factory_demo.Process.{Logger, Effect, System, Process}
use factory_demo.Observability.Logging.{Closer, new_logger, close_log}
use factory_demo.Observability.Logging.Handles.{handles_after, new_logger-close_log}
use factory_demo.Deployment.Lifecycle
use factory_demo.Deployment.Lifecycle.{Arrival, Happening, Waiting, Phase, Run}
use factory_demo.Deployment.Lifecycle.Outcomes.{EndsFrom, StopsFrom}
use factory_demo.Deployment.Lifecycle.Returns.{Run-returned_iff}
use factory_demo.Deployment.Mains.{api_main, core_mock_main, market_mock_main}
use factory_demo.Deployment.Mains.Endings.{Ends, logger_made, mains-Ends}
use factory_demo.Deployment.Mains.Success.{EndsWell, api_main_zero_iff}

-- A system that answers each call with nil, and one that refuses to open a file.
abbrev willing : System
willing done e = none

abbrev refusing : System
refusing done e = elim e [
  | Effect.opened_file root name mode ↦ some (foreign (codes "denied"))
  | _ ↦ none
]

abbrev start : Process
start = record { handles = 0 ∷ []; next = 1; done = [] }

abbrev log_path : Text
log_path = codes "/var/log/api.log"

-- A log file and an endpoint of the collector are configured.
abbrev demo_env : Text → Text
unfolding text_eq
demo_env name =
    if text_eq name (codes "LOG_FILE")
    then log_path
    else if text_eq name (codes "OTEL_EXPORTER_OTLP_ENDPOINT")
    then codes "http://collector:4318"
    else []

abbrev two_seconds : Text → Result Failure ℤ
two_seconds t = ok (pos 2_000_000_000)

abbrev no_error : Failure → Bool
no_error e = false

abbrev same_text : Text → Text
same_text t = t

mains-Ends_example :
    Ends
      (0 ∷ [])
      (handles_after (0 ∷ []) (logger_made willing demo_env start (codes "portfolio-api")).0)
      (api_main willing no_error two_seconds demo_env (some (foreign (codes "bind"))) start)
    × Ends
        (0 ∷ [])
        (handles_after (0 ∷ []) (logger_made willing demo_env start (codes "core-mock")).0)
        (core_mock_main willing same_text demo_env (some (foreign (codes "bind"))) start)
    × Ends
        (0 ∷ [])
        (handles_after (0 ∷ []) (logger_made willing demo_env start (codes "market-mock")).0)
        (market_mock_main willing demo_env (some (foreign (codes "bind"))) start)
mains-Ends_example =
    mains-Ends willing demo_env start no_error two_seconds same_text (some (foreign (codes "bind")))

api_main_zero_iff_example :
    ((api_main willing no_error two_seconds demo_env none start).0 ≡ 0)
    ↔ EndsWell willing no_error two_seconds demo_env start none
api_main_zero_iff_example = api_main_zero_iff willing no_error two_seconds demo_env start none

new_logger-close_log_example :
    let (result, q) = new_logger refusing (codes "portfolio-api") log_path start in
    ((e : Failure) → result ≡ err e → q.handles ≡ 0 ∷ [])
    × ((logger : Logger) (closer : Closer) (r : Process)
        → result ≡ ok (logger, closer)
        → r.handles ≡ q.handles
        → (close_log refusing closer r).1.handles ≡ 0 ∷ [])
new_logger-close_log_example = new_logger-close_log refusing (codes "portfolio-api") log_path start

abbrev nothing_there : Waiting
nothing_there = record { results = []; signaled = false }

-- The listener and a signal are both there, and the select takes the signal.
abbrev both_there : List Happening
both_there =
    Happening.outside (Arrival.ended none)
    ∷ Happening.outside Arrival.signal
    ∷ Happening.took_signal
    ∷ Happening.shut_down (some (foreign (codes "deadline")))
    ∷ []

Run-returned_iff_example :
    Run no_error Lifecycle.start both_there (Phase.returned (some (foreign (codes "deadline")))) ↔ (
      EndsFrom no_error nothing_there both_there (some (foreign (codes "deadline")))
      ⊎ StopsFrom no_error nothing_there both_there (some (foreign (codes "deadline"))))
Run-returned_iff_example = Run-returned_iff no_error both_there (some (foreign (codes "deadline")))
