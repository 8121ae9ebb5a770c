-- ===== src/Spectator.antt =====
-- src/src/core_dll/spectator: the records of a match on their way to spectators.
pub mod Records
pub mod Queue
pub mod Archive
mod Tests
