-- ===== src/Observability.antt =====
-- internal/observability: the request counters that the API exposes to Prometheus, the logger and
-- tracing.
pub mod Metrics
pub mod Logging
pub mod Tracing
