-- ===== src/Contracts.antt =====
-- packages/contracts: what the services share.
pub mod Status
pub mod Topology
pub mod Retry
pub mod Json
pub mod Schema
pub mod Delivery
pub mod RoundTrip
