-- ===== src/Reconciliation.antt =====
-- packages/reconciliation: estimates against the provider's bill.
pub mod Proration
pub mod Drift
pub mod Query
pub mod Service
mod Tests
