-- ===== src/Kafka.antt =====
-- The consumers of Kafka (src/messaging/kafka.consumer.ts of the inventory, the audit and the
-- analytics service) and the names that they share (packages/contracts/src/topology/kafka.ts).
pub mod Subscriptions
