-- ===== src/Allocation.antt =====
-- packages/allocation: the three tiers of cost allocation and their rollup.
pub mod Allocator
pub mod Line
pub mod Tiers
pub mod Rollup
pub mod Idle
mod Tests
