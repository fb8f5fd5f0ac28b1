-- ===== src/Deployment/Mains/Spans.antt =====
-- What the API's main function does with the spans of the tracing library before it ends.
use factory_demo.Base.{ℕ, ◌≡◌}
use factory_demo.Text.{Text}
use factory_demo.Failure.{Failure}
use factory_demo.Process.{System, Process}
use factory_demo.Observability.Tracing.Pending.{Finished}

abbrev EndsFinished : System → ℕ × Process → Type 0
EndsFinished system (status, p) = status ≡ 0 → Finished system p
