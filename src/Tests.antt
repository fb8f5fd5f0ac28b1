-- ===== src/Tests.antt =====
-- Runs of the theorems on concrete inputs, the data of the mock services among them.
pub mod Fixtures
mod DomainExamples
mod PortfolioExamples
mod UpstreamExamples
mod HttpExamples
mod MockExamples
mod ProcessExamples
mod WireExamples
