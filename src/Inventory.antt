-- ===== src/Inventory.antt =====
-- apps/inventory-service: the stock, its reservations, and the two consumers.
pub mod Entities
pub mod Service
pub mod Conservation
pub mod Moves
pub mod Ledger
pub mod Reserve
pub mod Settled
pub mod SettleTotal
pub mod ReserveConsumer
pub mod Replies
pub mod EventConsumer
pub mod Patience
