-- ===== src/Upstream.antt =====
-- internal/upstream: the adapters of the Core and the Market API.
pub mod Wire
pub mod Http
pub mod Items
pub mod Mapping
pub mod Core
pub mod Market
pub mod Decoding
