-- ===== src/Outcomes.antt =====
-- packages/outcomes: outcomes detected, classed, stored and retracted.
pub mod Signal
pub mod Repository
pub mod Predicate
pub mod Webhook
mod Tests
mod WebhookTests
