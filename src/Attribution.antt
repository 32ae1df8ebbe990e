-- ===== src/Attribution.antt =====
-- packages/attribution: an outcome bound to the run that produced it.
pub mod Resolver
pub mod Deterministic
pub mod Entity
pub mod Semantic
pub mod Cascade
mod Tests
