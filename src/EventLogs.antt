-- ===== src/EventLogs.antt =====
-- apps/audit-service and apps/analytics-service: the two logs of the status changes.
pub mod Audit
pub mod Analytics
pub mod Deliveries
pub mod Ingestion
pub mod Reports
pub mod TimeInStatus
pub mod Samples
