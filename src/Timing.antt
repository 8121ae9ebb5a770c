-- ===== src/Timing.antt =====
-- src/src/core_dll/timing: frame deadlines, following the other player's clock, and pacing.
pub mod Cadence
pub mod Follower
pub mod Pacing
pub mod MeanDelay
pub mod UpdateInterval
pub mod Display
pub mod Projection
pub mod Continuity
pub mod Boundary
mod Tests
