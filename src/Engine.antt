-- ===== src/Engine.antt =====
-- packages/pricing-engine/src: the pure pricing engine that the server and the browser share.
pub mod Types
pub mod Double
pub mod Builder
pub mod Rules
pub mod Daily
pub mod Hourly
pub mod Monthly
pub mod Quote
mod Tests
