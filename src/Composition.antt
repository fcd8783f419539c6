-- ===== src/Composition.antt =====
-- The order API, its poller, the brokers, the inventory and the audit service together.
pub mod World
pub mod Batch
pub mod Backing
pub mod Rows
pub mod Announced
pub mod Goods
pub mod Logged
pub mod Invariant
pub mod Safety
pub mod Delivered
pub mod Polls
pub mod Sound
pub mod Routed
pub mod Drained
