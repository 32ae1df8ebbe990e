-- ===== src/Metrics.antt =====
-- packages/metrics: user-defined metrics over costs and outcomes.
pub mod Propagation
pub mod Grammar
pub mod Plan
pub mod Executor
mod Tests
