-- ===== src/Core.antt =====
-- packages/core: the vocabularies, the confidence of rollups, token usage and entity aliases.
pub mod Enums
pub mod Tokens
pub mod Provenance
pub mod Outcome
pub mod Rollup
pub mod Alias
mod Tests
