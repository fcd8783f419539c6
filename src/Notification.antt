-- ===== src/Notification.antt =====
-- apps/notification-service: the simulated sending of notifications.
pub mod Service
pub mod Sending
