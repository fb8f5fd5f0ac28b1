-- ===== src/Portfolio.antt =====
-- internal/portfolio: the use case that joins accounts with prices.
pub mod Symbols
pub mod Service
