-- ===== src/OrderApi.antt =====
-- apps/order-api: the orders, their state machine, the transactional outbox and the jobs.
pub mod StateMachine
pub mod Entities
pub mod Payloads
pub mod Store
pub mod Service
pub mod Listing
pub mod Lifecycle
pub mod History
pub mod Writes
pub mod Consistency
pub mod Poller
pub mod Drain
pub mod Faults
pub mod System
pub mod Dedupe
pub mod Outcomes
pub mod Jobs
pub mod ReplyQueue
pub mod Cancellation
pub mod Http
pub mod Answers
pub mod Pages
