-- ===== src/Capture.antt =====
-- packages/capture: usage read off provider responses, priced and buffered.
pub mod Terminal
pub mod Pricing
pub mod Emitter
mod Tests
