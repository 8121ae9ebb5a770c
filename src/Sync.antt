-- ===== src/Sync.antt =====
-- src/src/core_dll/sync: the input buffer of a match, frame numbers, and what the two players agree on.
pub mod MatchInput
pub mod FrameSequence
pub mod EpochStart
pub mod BoundedWait
pub mod PostRoundDelay
pub mod Settings
pub mod Selection
pub mod Retry
pub mod Clock
mod Tests
