-- ===== src/Notifications.antt =====
-- services/notification_service.py: webhooks with their retries, the states of the containers with the
-- events and counters of a transition, and the updates of images that are notified once.
pub mod Webhook
pub mod States
pub mod Updates
mod Tests
