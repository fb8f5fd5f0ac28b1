-- ===== src/Domain.antt =====
-- internal/domain: money, quantities, and the values of a portfolio.
pub mod Money
pub mod Quantity
pub mod Values
