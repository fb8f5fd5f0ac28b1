-- ===== src/Observability/Tracing.antt =====
-- internal/observability/tracing.go: SetupTracing and the function that shuts tracing down. What the
-- OpenTelemetry libraries answer is a parameter.
pub mod Pending
use factory_demo.Base.{List, [], ◌∷◌, ◌++◌, Option, none, some, Result, ok, err, if◌then◌else◌}
use factory_demo.Text.{Text, codes, is_empty}
use factory_demo.Failure.{Failure}
use factory_demo.Process.{Provider, Effect, System, Process, note, perform, join_errors}

-- The function that SetupTracing returns.
pub data Shutdown : Type 0 where
  no_tracing : Shutdown
  of_provider : Provider → Shutdown

module _ (system : System) where
  abbrev provide : Provider → Process → Process
  provide provider p = note Effect.ignored_tracing_errors (note (Effect.set_provider provider) p)

  -- SetupTracing.
  unfoldable pub setup_tracing : Text → Text → Process → Result Failure Shutdown × Process
  setup_tracing service endpoint p =
      if is_empty endpoint
      then (ok Shutdown.no_tracing, p)
      else (let (exporter, q) =
            perform system (Effect.made_exporter (endpoint ++ codes "/v1/traces") 3000000000) p in
          elim exporter [
            | some e ↦ (err e, q)
            | none ↦
                (let (resource, r) = perform system (Effect.made_resource service) q in
                  elim resource [
                    | some e ↦ (err e, r)
                    | none ↦
                        (let provider : Provider = record {
                          endpoint = endpoint;
                          service = service;
                        } in
                          (ok (Shutdown.of_provider provider), provide provider r))
                  ])
          ])

  unfoldable pub shutdown_tracing : Shutdown → Process → List Failure × Process
  shutdown_tracing Shutdown.no_tracing p = ([], p)
  shutdown_tracing (Shutdown.of_provider provider) p =
      let (e, q) = perform system (Effect.flushed provider) p in
      let (f, r) = perform system (Effect.stopped provider) q in (join_errors e f, r)
