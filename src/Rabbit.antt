-- ===== src/Rabbit.antt =====
-- The queues that the services declare to RabbitMQ (src/messaging/rabbitmq.module.ts of the order
-- API, the inventory service and the notification service).
pub mod Setup
pub mod Declared
